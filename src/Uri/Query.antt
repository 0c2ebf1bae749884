-- ===== src/Uri/Query.antt =====
-- net/uri.cpp: parsing what `dump` prints.
use my_async.Prelude.{
  ℕ, zero, suc, ◌<◌, ◌≡◌, refl, ap, sym, ◌∙◌, true, some, List, [], ◌∷◌, ◌++◌, length,
  length-append, append-nil, append_assoc, arith, subst,
}
use my_async.Strings.Split.{Free, take-front, drop-front}
use my_async.SimpleMap.{SimpleMap, insert_or_assign}
use my_async.SimpleMap.Laws.{Above, Sorted}
use my_async.Uri.{insert_pair, parse_query, rooted, parse, dump_params, dump}
use my_async.Uri.Keys.{strings}
use my_async.Uri.Safe.{AllSafe, AllSafe-Free, find-Free, find-append, url_decode-url_encode}

abbrev Params : Type 0
Params = SimpleMap (List ℕ) (List ℕ)

abbrev pub SafeParams : Params → Type 0
SafeParams [] = Unit {0}
SafeParams ((k, v) ∷ m) = AllSafe k × (AllSafe v × SafeParams m)

-- The text of a query.
abbrev joined : List ℕ → List ℕ → Params → List ℕ
joined k v [] = k ++ (61 ∷ v)
joined k v ((k', v') ∷ m) = (k ++ (61 ∷ v)) ++ (38 ∷ joined k' v' m)

dump_params-joined :
    (mark : ℕ) (k v : List ℕ) (m : Params)
    → SafeParams ((k, v) ∷ m)
    → dump_params mark ((k, v) ∷ m) ≡ some (mark ∷ joined k v m)
unfolding dump_params
dump_params-joined mark k v [] (hk, (hv, hm)) =
    rw ((url_decode-url_encode k hk).0, dump_params)
      (rw ((url_decode-url_encode v hv).0, dump_params)
        (ap (λ r. some ((mark ∷ k) ++ (61 ∷ r))) (append-nil v)))
dump_params-joined mark k v ((k', v') ∷ m) (hk, (hv, hm)) =
    rw ((url_decode-url_encode k hk).0, dump_params)
      (rw ((url_decode-url_encode v hv).0, dump_params)
        (rw (dump_params-joined 38 k' v' m hm)
          (ap (λ r. some (mark ∷ r)) (sym (append_assoc k (61 ∷ v) (38 ∷ joined k' v' m))))))

insert_pair-safe :
    (k v : List ℕ) (params : Params)
    → AllSafe k
    → AllSafe v
    → insert_pair (k ++ (61 ∷ v)) params ≡ some (insert_or_assign strings k v params)
unfolding insert_pair
insert_pair-safe k v params hk hv =
    rw (find-append 61 k v (AllSafe-Free k hk).1.1.0, insert_pair)
      (rw (take-front k (61 ∷ v), drop-front k 61 v) (rw (url_decode-url_encode v hv).1 refl))

append-Free : (d : ℕ) (xs ys : List ℕ) → Free d xs → Free d ys → Free d (xs ++ ys)
append-Free d [] ys hx hy = hy
append-Free d (x ∷ xs) ys (h, hx) hy = (h, append-Free d xs ys hx hy)

pair-Free : (k v : List ℕ) → AllSafe k → AllSafe v → Free 38 (k ++ (61 ∷ v))
pair-Free k v hk hv =
    append-Free 38 k (61 ∷ v) (AllSafe-Free k hk).1.0 (omega arith, (AllSafe-Free v hv).1.0)

-- Entries put into a map one after the other.
abbrev insert_all : Params → Params → Params
insert_all [] acc = acc
insert_all ((k, v) ∷ m) acc = insert_all m (insert_or_assign strings k v acc)

parse_query-joined :
    (f : ℕ) (k v : List ℕ) (m acc : Params)
    → SafeParams ((k, v) ∷ m)
    → length m < f
    → parse_query f (joined k v m) acc ≡ some (insert_all ((k, v) ∷ m) acc)
unfolding parse_query
parse_query-joined zero k v m acc h fuel = absurd (omega arith)
parse_query-joined (suc f) k v [] acc (hk, (hv, hm)) fuel =
    rw (find-Free 38 (k ++ (61 ∷ v)) (pair-Free k v hk hv), parse_query)
      (insert_pair-safe k v acc hk hv)
parse_query-joined (suc f) k v ((k', v') ∷ m) acc (hk, (hv, hm)) fuel =
    let pair = k ++ (61 ∷ v) in
    rw (find-append 38 pair (joined k' v' m) (pair-Free k v hk hv), parse_query)
      (rw (take-front pair (38 ∷ joined k' v' m)) (
        rw (insert_pair-safe k v acc hk hv, parse_query)
          (rw (drop-front pair 38 (joined k' v' m))
            (parse_query-joined f k' v' m (insert_or_assign strings k v acc) hm (omega arith)))))

-- An entry whose key is above all others goes to the end.
insert_last :
    (acc : Params) (k v : List ℕ) (m : Params)
    → Sorted strings (acc ++ ((k, v) ∷ m))
    → insert_or_assign strings k v acc ≡ acc ++ ((k, v) ∷ [])
unfolding insert_or_assign
insert_last [] k v m s = refl
insert_last ((k', v') ∷ acc) k v m (a, s) =
    rw (above acc a) (ap (◌∷◌ (k', v')) (insert_last acc k v m s))
  where
    above : (acc : Params) → Above strings k' (acc ++ ((k, v) ∷ m)) → strings.less k' k ≡ true
    above [] (l, ls) = l
    above (e ∷ acc) (l, ls) = above acc ls

insert_all-Sorted : (m acc : Params) → Sorted strings (acc ++ m) → insert_all m acc ≡ acc ++ m
insert_all-Sorted [] acc s = sym (append-nil acc)
insert_all-Sorted ((k, v) ∷ m) acc s =
    let one = append_assoc acc ((k, v) ∷ []) m in
    ap (insert_all m) (insert_last acc k v m s)
    ∙ insert_all-Sorted m (acc ++ ((k, v) ∷ [])) (subst (Sorted strings) (sym one) s)
    ∙ one

length-joined : (k v : List ℕ) (m : Params) → length m < length (joined k v m)
length-joined k v [] = omega (arith, length-append k (61 ∷ v))
length-joined k v ((k', v') ∷ m) =
    omega (arith, length-append (k ++ (61 ∷ v)) (38 ∷ joined k' v' m), length-joined k' v' m)

rooted-slash : (p : List ℕ) → rooted (47 ∷ p) ≡ 47 ∷ p
unfolding rooted
rooted-slash p = refl

-- A URI whose path starts with a slash and holds no question mark, and whose parameters are in
-- the order of their keys and of safe bytes, is printed, and parsing the text gives the URI back.
pub parse-dump :
    (p : List ℕ) (m : Params)
    → Free 63 (47 ∷ p)
    → SafeParams m
    → Sorted strings m
    → (s : List ℕ) × (dump (record { path = 47 ∷ p; params = m }) ≡ some s)
      × (parse s ≡ some (record { path = 47 ∷ p; params = m }))
unfolding dump parse dump_params
parse-dump p [] h hm s =
    let path = append-nil (47 ∷ p) in
    (
      47 ∷ p,
      ap some path,
      rw (find-Free 63 (47 ∷ p) h, parse)
          (ap (λ q. some (record { path = q; params = [] })) (rooted-slash p)),
    )
parse-dump p ((k, v) ∷ m) h hm s =
    let path = 47 ∷ p in
    let query = joined k v m in
    let fuel : length m < length (path ++ (63 ∷ query)) =
      omega (arith, length-append path (63 ∷ query), length-joined k v m) in
    (
      path ++ (63 ∷ query),
      rw (dump_params-joined 63 k v m hm) refl,
      rw (find-append 63 path query h, parse)
          (rw (take-front path (63 ∷ query), drop-front path 63 query)
            (rw (rooted-slash p) (
              rw (parse_query-joined (length (path ++ (63 ∷ query))) k v m [] hm fuel) (
                ap (λ q. some (record { path = path; params = q }))
                  (insert_all-Sorted ((k, v) ∷ m) [] s))))),
    )
