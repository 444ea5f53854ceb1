-- ===== src/Auth/Toy.antt =====
-- A concrete stand-in for hashlib and base64, to run the service: digests that hide nothing.
use Prim.Native.Char.{code}
use droid_web_display.Common.{
  ℕ, zero, suc, ◌+◌, String, ◌≡◌, refl, ◌∙◌, ap, Option, some, List, [], ◌∷◌, ◌==◌, if◌then◌else◌,
  length, arith,
}
use mathlib.Core.Option
use droid_web_display.Common.Text.{codes}
use droid_web_display.Auth.Types.{Crypto, IsLawful}

-- A number in unary, closed by a `b`.
tally : ℕ → String → String
tally zero s = String.◌∷◌ "b" s
tally (suc n) s = String.◌∷◌ "a" (tally n s)

encode : List ℕ → String
unfolding tally
encode [] = String.[]
encode (n ∷ ns) = tally n (encode ns)

decode : ℕ → String → Option (List ℕ)
decode n String.[] = some []
decode n (String.◌∷◌ c s) =
    if code c == 97 then decode (n + 1) s else Option.map (λ ns. n ∷ ns) (decode 0 s)

decode-tally :
    (n m k : ℕ) (s : String)
    → m + n ≡ k
    → decode m (tally n s) ≡ Option.map (λ ns. k ∷ ns) (decode 0 s)
unfolding decode tally
decode-tally zero m k s h = let e : m ≡ k = omega arith in rw e
decode-tally (suc n) m k s h = decode-tally n (m + 1) k s (omega arith)

decode-encode : (ns : List ℕ) → decode 0 (encode ns) ≡ some ns
unfolding encode decode
decode-encode [] = refl
decode-encode (n ∷ ns) = decode-tally n 0 n (encode ns) (omega arith) ∙ rw (decode-encode ns)

pad : ℕ → List ℕ → List ℕ
pad zero xs = []
pad (suc n) [] = 0 ∷ pad n []
pad (suc n) (x ∷ xs) = x ∷ pad n xs

length-pad : (n : ℕ) (xs : List ℕ) → length (pad n xs) ≡ n
unfolding pad
length-pad zero xs = refl
length-pad (suc n) [] = ap suc (length-pad n [])
length-pad (suc n) (x ∷ xs) = ap suc (length-pad n xs)

unfoldable pub toy : Crypto
unfolding encode decode pad
toy = record {
  token_digest = λ t. t;
  pbkdf2 = λ pin salt rounds n. pad n (codes pin);
  b64encode = encode;
  b64decode = decode 0;
}

pub toy-IsLawful : IsLawful toy
unfolding toy
toy-IsLawful = record {
  decode-encode = decode-encode;
  length-pbkdf2 = λ pin salt rounds n. length-pad n (codes pin);
}
