-- ===== src/Uri.antt =====
-- net/uri.cpp: percent-encoding, and the parsing and printing of a URI with its parameters. Strings
-- are lists of bytes; what is undefined gives `none`: a read past the table of digits, and the
-- append of a range whose end stands before its start.
pub mod Safe
pub mod Query
pub mod Keys
mod Tests
use mathlib.Core.Option
use my_async.Prelude.{
  ℕ, zero, suc, ◌+◌, ◌-◌, ◌*◌, ◌/◌, ◌%◌, ◌^◌, Bool, true, false, ◌&&◌, ◌||◌, Option, none, some,
  List, [], ◌∷◌, ◌++◌, length, get_elem?, get_or, take, drop, leb, ltb, ◌==◌, if◌then◌else◌,
}
use my_async.Strings.{find}
use my_async.SimpleMap.{Order, SimpleMap, insert_or_assign}
use my_async.Uri.Keys.{strings}

-- `fromHex`, for capital digits.
unfoldable pub from_hex : ℕ → ℕ
from_hex c =
    if leb 48 c && leb c 57 then c - 48 else if leb 65 c && leb c 70 then c - 65 + 10 else 0

-- `isCharUrlSafe`.
unfoldable pub is_char_url_safe : ℕ → Bool
is_char_url_safe c =
    (leb 48 c && leb c 57)
    || ((leb 97 c && leb c 122)
        || ((leb 65 c && leb c 90) || ((c == 45) || ((c == 95) || (c == 46)))))

-- The string `lut` with its terminating zero.
abbrev pub lut : List ℕ
lut = 49 ∷ 49 ∷ 52 ∷ 53 ∷ 49 ∷ 52 ∷ 49 ∷ 49 ∷ 52 ∷ 53 ∷ 49 ∷ 52 ∷ 0 ∷ []

-- The three bytes for one that is not safe: the second digit is `lut[c >> 0xf]`.
unfoldable pub escape : ℕ → Option (List ℕ)
escape c = elim (get_elem? lut (c / 2 ^ 4)) [
  | none ↦ none
  | some d₁ ↦ elim (get_elem? lut (c / 2 ^ 15)) [ none ↦ none | some d₂ ↦ some (37 ∷ d₁ ∷ d₂ ∷ []) ]
]

unfoldable pub encode_with : (ℕ → Bool) → List ℕ → Option (List ℕ)
encode_with safe [] = some []
encode_with safe (c ∷ s) =
    let rest = encode_with safe s in
    if safe c
    then Option.map (◌∷◌ c) rest
    else elim (escape c) [ none ↦ none | some e ↦ Option.map (λ r. e ++ r) rest ]

unfoldable pub url_encode : List ℕ → Option (List ℕ)
unfolding encode_with
url_encode s = encode_with is_char_url_safe s

unfoldable pub url_encode_path : List ℕ → Option (List ℕ)
unfolding encode_with
url_encode_path s = encode_with (λ c. is_char_url_safe c || (c == 47)) s

-- The loop of `url_decode` from `b` on, with what it has appended to `r`. It appends the range from
-- `b` to 1, which is undefined for a larger `b`. A round for each escape, so the length is fuel enough.
unfoldable pub decode_from : ℕ → List ℕ → ℕ → List ℕ → Option (List ℕ)
decode_from zero s b r = none
decode_from (suc f) s b r = elim (find 37 (drop b s)) [
  | none ↦ some (r ++ drop b s)
  | some k ↦
      let i = b + k in
      let byte = (from_hex (get_or s (i + 1) 0) * 2 ^ 4 + from_hex (get_or s (i + 2) 0)) % 2 ^ 8 in
      let next = decode_from f s (i + 3) ((r ++ take (1 - b) (drop b s)) ++ (byte ∷ [])) in
      if ltb (length s) (i + 3) then some (r ++ drop b s) else if leb b 1 then next else none
]

unfoldable pub url_decode : List ℕ → Option (List ℕ)
unfolding decode_from
url_decode s = decode_from (length s + 1) s 0 []

pub record Uri : Type 0 where
  pub path : List ℕ
  pub params : SimpleMap (List ℕ) (List ℕ)

-- One parameter of a query, `k=v`; without an `=` it is left out.
unfoldable pub insert_pair :
    List ℕ → SimpleMap (List ℕ) (List ℕ) → Option (SimpleMap (List ℕ) (List ℕ))
insert_pair pair params = elim (find 61 pair) [
  | none ↦ some params
  | some m ↦
      Option.map (λ v. insert_or_assign strings (take m pair) v params)
        (url_decode (drop (m + 1) pair))
]

-- The loop over the query behind the `?`, on fuel: a round for each parameter.
unfoldable pub parse_query :
    ℕ → List ℕ → SimpleMap (List ℕ) (List ℕ) → Option (SimpleMap (List ℕ) (List ℕ))
parse_query zero query params = none
parse_query (suc f) query params = elim (find 38 query) [
  | none ↦ insert_pair query params
  | some i ↦ elim (insert_pair (take i query) params) [
    | none ↦ none
    | some params' ↦ parse_query f (drop (i + 1) query) params'
  ]
]

-- A path that does not start with a slash is given one.
unfoldable pub rooted : List ℕ → List ℕ
rooted [] = 47 ∷ []
rooted (c ∷ s) = if c == 47 then c ∷ s else 47 ∷ c ∷ s

unfoldable pub parse : List ℕ → Option Uri
parse uri = elim (find 63 uri) [
  | none ↦ some (record { path = rooted uri; params = [] })
  | some i ↦
      Option.map (λ params. record { path = rooted (take i uri); params = params })
        (parse_query (length uri) (drop (i + 1) uri) [])
]

-- The loop of `dump`, which puts `mark` in front of the next parameter.
unfoldable pub dump_params : ℕ → SimpleMap (List ℕ) (List ℕ) → Option (List ℕ)
dump_params mark [] = some []
dump_params mark ((k, v) ∷ params) = elim (url_encode k) [
  | none ↦ none
  | some k' ↦ elim (url_encode v) [
    | none ↦ none
    | some v' ↦ Option.map (λ r. (mark ∷ k') ++ ((61 ∷ v') ++ r)) (dump_params 38 params)
  ]
]

unfoldable pub dump : Uri → Option (List ℕ)
unfolding dump_params
dump uri = Option.map (λ r. uri.path ++ r) (dump_params 63 uri.params)
