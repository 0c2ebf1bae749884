-- ===== src/Uri/Tests.antt =====
-- Concrete URIs for net/uri.cpp: 47 is the slash, 63 the question mark, 61 the equals sign.
use my_async.Prelude.{◌≡◌, refl, some, none, List, ℕ, [], ◌∷◌, arith}
use my_async.SimpleMap.{SimpleMap}
use my_async.SimpleMap.Laws.{Sorted}
use my_async.Uri.{Uri, url_encode, url_decode, parse, dump, is_char_url_safe}
use my_async.Uri.Keys.{strings}
use my_async.Uri.Query.{SafeParams, parse-dump}

-- `a=b` and `c=12`.
abbrev params : SimpleMap (List ℕ) (List ℕ)
params = (97 ∷ [], 98 ∷ []) ∷ (99 ∷ [], 49 ∷ 50 ∷ []) ∷ []

abbrev params-SafeParams : SafeParams params
unfolding is_char_url_safe
params-SafeParams = ((refl, tt), ((refl, tt), ((refl, tt), ((refl, (refl, tt)), tt))))

abbrev params-Sorted : Sorted strings params
unfolding my_async.Uri.Keys.less
params-Sorted = ((refl, tt), (tt, tt))

parse-dump_example :
    (s : List ℕ) × (dump (record { path = 47 ∷ 120 ∷ []; params = params }) ≡ some s)
    × (parse s ≡ some (record { path = 47 ∷ 120 ∷ []; params = params }))
parse-dump_example =
    parse-dump (120 ∷ []) params (omega arith, (omega arith, tt)) params-SafeParams params-Sorted

-- A space is encoded as %41, and `ab%20c` is decoded without its second byte; a second escape is
-- undefined.
space_run : url_encode (32 ∷ []) ≡ some (37 ∷ 52 ∷ 49 ∷ [])
unfolding url_encode is_char_url_safe my_async.Uri.escape
space_run = refl

one_escape_run : url_decode (97 ∷ 98 ∷ 37 ∷ 50 ∷ 48 ∷ 99 ∷ []) ≡ some (97 ∷ 32 ∷ 99 ∷ [])
unfolding url_decode my_async.Strings.find my_async.Uri.from_hex
one_escape_run = refl

two_escapes_run : url_decode (37 ∷ 50 ∷ 48 ∷ 37 ∷ 50 ∷ 48 ∷ []) ≡ none
unfolding url_decode my_async.Strings.find
two_escapes_run = refl
