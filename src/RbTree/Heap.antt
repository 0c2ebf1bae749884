-- ===== src/RbTree/Heap.antt =====
-- utils/rbtree.hpp: the nodes of a red-black tree, and the assignments to them.
use my_async.Prelude.{
  ℕ, Bool, true, false, Option, none, some, ◌==◌, if◌then◌else◌, ◌≡◌, ◌≢◌, refl, arith,
}

pub data Side : Type 0 where
  left right : Side

abbrev pub opposite : Side → Side
opposite left = right
opposite right = left

-- `RbColor`.
pub data Color : Type 0 where
  red black : Color

abbrev pub is_red : Color → Bool
is_red red = true
is_red black = false

-- The fields of every node, `rbLeft` and `rbRight` as its children, and the root. Whether `rbTree` of
-- a node is set is `owned`.
pub record Nodes : Type 0 where
  pub child : Side → ℕ → Option ℕ
  pub parent : ℕ → Option ℕ
  pub color : ℕ → Color
  pub owned : ℕ → Bool
  pub root : Option ℕ

unfoldable pub update : {A : Type 0} → (ℕ → A) → ℕ → A → ℕ → A
update f a v i = if i == a then v else f i

-- An assignment to the child on one side.
unfoldable pub update_child : (Side → ℕ → Option ℕ) → Side → ℕ → Option ℕ → Side → ℕ → Option ℕ
unfolding update
update_child f left a v left = update (f left) a v
update_child f left a v right = f right
update_child f right a v left = f left
update_child f right a v right = update (f right) a v

abbrev pub set_child : Side → ℕ → Option ℕ → Nodes → Nodes
set_child d a v h = record h { child = update_child h.child d a v }

abbrev pub set_parent : ℕ → Option ℕ → Nodes → Nodes
set_parent a v h = record h { parent = update h.parent a v }

abbrev pub set_color : ℕ → Color → Nodes → Nodes
set_color a v h = record h { color = update h.color a v }

abbrev pub set_owned : ℕ → Bool → Nodes → Nodes
set_owned a v h = record h { owned = update h.owned a v }

abbrev pub set_root : Option ℕ → Nodes → Nodes
set_root v h = record h { root = v }

abbrev pub follow {ℓ κ} : {A : Type ℓ} {B : Type κ} → Option A → (A → Option B) → Option B
follow none k = none
follow (some a) k = k a

abbrev pub points_to : Option ℕ → ℕ → Bool
points_to none node = false
points_to (some a) node = a == node

pub update_self : {A : Type 0} (f : ℕ → A) (a : ℕ) (v : A) → update f a v a ≡ v
unfolding update
update_self f a v = ground arith

pub update_other : {A : Type 0} (f : ℕ → A) (a i : ℕ) (v : A) → i ≢ a → update f a v i ≡ f i
unfolding update
update_other f a i v h = ground arith

pub child_self :
    (f : Side → ℕ → Option ℕ) (d : Side) (a : ℕ) (v : Option ℕ) → update_child f d a v d a ≡ v
unfolding update_child
child_self f left a v = update_self (f left) a v
child_self f right a v = update_self (f right) a v

-- The child of another node, or on the other side, stays.
pub child_other :
    (f : Side → ℕ → Option ℕ) (d e : Side) (a i : ℕ) (v : Option ℕ)
    → i ≢ a
    → update_child f d a v e i ≡ f e i
unfolding update_child
child_other f left left a i v h = update_other (f left) a i v h
child_other f left right a i v h = refl
child_other f right left a i v h = refl
child_other f right right a i v h = update_other (f right) a i v h

pub child_opposite :
    (f : Side → ℕ → Option ℕ) (d : Side) (a i : ℕ) (v : Option ℕ)
    → update_child f d a v (opposite d) i ≡ f (opposite d) i
unfolding update_child
child_opposite f left a i v = refl
child_opposite f right a i v = refl

pub child_opposite' :
    (f : Side → ℕ → Option ℕ) (d : Side) (a i : ℕ) (v : Option ℕ)
    → update_child f (opposite d) a v d i ≡ f d i
unfolding update_child
child_opposite' f left a i v = refl
child_opposite' f right a i v = refl

pub opposite-opposite : (d : Side) → opposite (opposite d) ≡ d
opposite-opposite left = refl
opposite-opposite right = refl
