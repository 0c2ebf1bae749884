-- ===== src/Uri/Safe.antt =====
-- net/uri.cpp: strings of safe bytes, which the encoding leaves as they are.
use my_async.Prelude.{
  ℕ, suc, ◌+◌, ◌≡◌, ◌≢◌, refl, ap, true, false, none, some, List, [], ◌∷◌, ◌++◌, length, arith,
  ◌==◌,
}
use my_async.Strings.{find}
use my_async.Strings.Split.{Free}
use my_async.Uri.{is_char_url_safe, encode_with, url_encode, decode_from, url_decode}

abbrev pub AllSafe : List ℕ → Type 0
AllSafe [] = Unit {0}
AllSafe (c ∷ s) = (is_char_url_safe c ≡ true) × AllSafe s

-- The marks of a URI are not safe.
pub safe_ne : (c : ℕ) → is_char_url_safe c ≡ true → (c ≢ 37) × ((c ≢ 38) × ((c ≢ 61) × (c ≢ 63)))
unfolding is_char_url_safe
safe_ne c h = ground arith

pub AllSafe-Free : (s : List ℕ) → AllSafe s → Free 37 s × (Free 38 s × (Free 61 s × Free 63 s))
AllSafe-Free [] h = (tt, (tt, (tt, tt)))
AllSafe-Free (c ∷ s) (h, hs) =
    let (a, (b, (d, e))) = safe_ne c h in
    let (a', (b', (d', e'))) = AllSafe-Free s hs in ((a, a'), ((b, b'), ((d, d'), (e, e'))))

pub find-Free : (d : ℕ) (s : List ℕ) → Free d s → find d s ≡ none
unfolding find
find-Free d [] h = refl
find-Free d (x ∷ s) (h, hs) =
    let e : (x == d) ≡ false = ground arith in rw e (rw (find-Free d s hs) refl)

pub find-append :
    (d : ℕ) (front back : List ℕ)
    → Free d front
    → find d (front ++ (d ∷ back)) ≡ some (length front)
unfolding find
find-append d [] back h = let e : (d == d) ≡ true = ground arith in rw e refl
find-append d (x ∷ front) back (h, hs) =
    let e : (x == d) ≡ false = ground arith in
    let one : length front + 1 ≡ suc (length front) = omega arith in
    rw e (rw (find-append d front back hs) (ap some one))

encode-safe : (s : List ℕ) → AllSafe s → encode_with is_char_url_safe s ≡ some s
unfolding encode_with
encode-safe [] h = refl
encode-safe (c ∷ s) (h, hs) = rw h (rw (encode-safe s hs) refl)

-- A string of safe bytes is its own encoding, and decoding it gives it back.
pub url_decode-url_encode :
    (s : List ℕ) → AllSafe s → (url_encode s ≡ some s) × (url_decode s ≡ some s)
unfolding url_encode url_decode decode_from
url_decode-url_encode s h =
    let one : length s + 1 ≡ suc (length s) = omega arith in
    (encode-safe s h, rw one (rw (find-Free 37 s (AllSafe-Free s h).0, decode_from) refl))
