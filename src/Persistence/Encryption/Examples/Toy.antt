-- ===== src/Persistence/Encryption/Examples/Toy.antt =====
-- An authenticated cipher with no secrets, which does what AES-GCM is documented to do: its
-- ciphertext lists the plain text and the authenticated data, number by number.
use Prim.Native.Nat.{compare, Ordering}
use Prim.Native.Char.{Char, char, code, IsLt, IsScalar, nul}
use mathlib.Core.Logic.{ite, if_pos, if_neg}
use native.Mathlib.Decide.{ℕ_discrete}
use text.Mathlib.TextEquality.{Char-path}
use pinterest_mcp_docker.Common.{
  ℕ, zero, suc, ◌+◌, ◌%◌, ◌≡◌, ◌≢◌, refl, ap, sym, ◌∙◌, append_assoc, append-nil, String, Option,
  some, none, List, [], ◌∷◌, ◌++◌, All, codes, arith,
}
use pinterest_mcp_docker.Persistence.Cipher.{OwnerId, uuid, pending_v1}
use pinterest_mcp_docker.Persistence.Encryption.{
  Aad, build_aad, Opening, opened, invalid_tag, refused, AesGcm, IsSound,
}
use pinterest_mcp_docker.Persistence.Encryption.Base64.Decoded.{IsByte}

-- The clauses of the library's own test of a scalar value.
abbrev IsBoth : Ordering → Ordering → Type 0
IsBoth Ordering.lt o = IsLt o
IsBoth Ordering.eq _ = ⊥
IsBoth Ordering.gt _ = ⊥

abbrev IsScalarValue : Ordering → Ordering → Ordering → Type 0
IsScalarValue Ordering.lt _ _ = Unit
IsScalarValue Ordering.eq o p = IsBoth o p
IsScalarValue Ordering.gt o p = IsBoth o p

pick_lt : (o : Ordering) → Option (IsLt o)
pick_lt Ordering.lt = some tt
pick_lt Ordering.eq = none
pick_lt Ordering.gt = none

pick_both : (o p : Ordering) → Option (IsBoth o p)
unfolding pick_lt
pick_both Ordering.lt p = pick_lt p
pick_both Ordering.eq p = none
pick_both Ordering.gt p = none

pick : (o p q : Ordering) → Option (IsScalarValue o p q)
unfolding pick_both
pick Ordering.lt p q = some tt
pick Ordering.eq p q = pick_both p q
pick Ordering.gt p q = pick_both p q

picks_both : (o p : Ordering) → IsBoth o p → (h : IsBoth o p) × (pick_both o p ≡ some h)
unfolding pick_both
picks_both Ordering.lt Ordering.lt h = (tt, refl)
picks_both Ordering.lt Ordering.eq h = elim h [ ]
picks_both Ordering.lt Ordering.gt h = elim h [ ]
picks_both Ordering.eq p h = elim h [ ]
picks_both Ordering.gt p h = elim h [ ]

picks : (o p q : Ordering) → IsScalarValue o p q → (h : IsScalarValue o p q) × (pick o p q ≡ some h)
unfolding pick
picks Ordering.lt p q h = (tt, refl)
picks Ordering.eq p q h = picks_both p q h
picks Ordering.gt p q h = picks_both p q h

char_or_nul : (n : ℕ) → Option (IsScalar n) → Char
char_or_nul n none = nul
char_or_nul n (some p) = char n p

of_code : ℕ → Char
unfolding char_or_nul pick
of_code n = char_or_nul n (pick (compare n 55296) (compare 57343 n) (compare n 1114112))

of_code-code : (c : Char) → of_code (code c) ≡ c
unfolding of_code
of_code-code (char n p) =
    let (h, found) = picks (compare n 55296) (compare 57343 n) (compare n 1114112) p in
    ap (char_or_nul n) found ∙ Char-path (char n h) (char n p) refl

unfoldable text_of : List ℕ → String
unfolding of_code
text_of [] = String.[]
text_of (n ∷ ns) = String.◌∷◌ (of_code n) (text_of ns)

text_of-codes : (s : String) → text_of (codes s) ≡ s
unfolding text_of
text_of-codes String.[] = refl
text_of-codes (String.◌∷◌ c s) = λ i. String.◌∷◌ (of_code-code c i) (text_of-codes s i)

-- Rows of numbers as bytes: a number is so many ones and a zero, and a two ends a row.
ones : ℕ → List ℕ → List ℕ
ones zero rest = rest
ones (suc n) rest = 1 ∷ ones n rest

write_row : List ℕ → List ℕ → List ℕ
unfolding ones
write_row [] rest = 2 ∷ rest
write_row (n ∷ ns) rest = ones n (0 ∷ write_row ns rest)

unfoldable write_rows : List (List ℕ) → List ℕ
unfolding write_row
write_rows [] = []
write_rows (r ∷ rs) = write_row r (write_rows rs)

unfoldable read_rows : ℕ → List ℕ → List ℕ → List (List ℕ)
read_rows k row [] = []
read_rows k row (zero ∷ bytes) = read_rows 0 (row ++ k ∷ []) bytes
read_rows k row (suc zero ∷ bytes) = read_rows (k + 1) row bytes
read_rows k row (suc (suc b) ∷ bytes) = row ∷ read_rows 0 [] bytes

read-ones :
    (n k : ℕ) (row rest : List ℕ) → read_rows k row (ones n rest) ≡ read_rows (k + n) row rest
unfolding read_rows ones
read-ones zero k row rest =
    let same : k ≡ k + 0 = omega arith in ap (λ (j : ℕ). read_rows j row rest) same
read-ones (suc n) k row rest =
    let same : k + 1 + n ≡ k + suc n = omega arith in
    read-ones n (k + 1) row rest ∙ ap (λ (j : ℕ). read_rows j row rest) same

read-row :
    (ns row rest : List ℕ) → read_rows 0 row (write_row ns rest) ≡ (row ++ ns) ∷ read_rows 0 [] rest
unfolding write_row read_rows
read-row [] row rest = ap (λ (r : List ℕ). r ∷ read_rows 0 [] rest) (sym (append-nil row))
read-row (n ∷ ns) row rest =
    read-ones n 0 row (0 ∷ write_row ns rest)
    ∙ ap (λ (k : ℕ). read_rows 0 (row ++ k ∷ []) (write_row ns rest))
        (let same : 0 + n ≡ n = omega arith in same)
    ∙ read-row ns (row ++ n ∷ []) rest
    ∙ ap (λ (r : List ℕ). r ∷ read_rows 0 [] rest) (append_assoc row (n ∷ []) ns)

read-write : (rs : List (List ℕ)) → read_rows 0 [] (write_rows rs) ≡ rs
unfolding write_rows
read-write [] = unfold read_rows in refl
read-write (r ∷ rs) =
    read-row r [] (write_rows rs) ∙ ap (λ (s : List (List ℕ)). r ∷ s) (read-write rs)

ones-bytes : (n : ℕ) (rest : List ℕ) → All IsByte rest → All IsByte (ones n rest)
unfolding ones
ones-bytes zero rest h = h
ones-bytes (suc n) rest h = (omega arith, ones-bytes n rest h)

row-bytes : (ns rest : List ℕ) → All IsByte rest → All IsByte (write_row ns rest)
unfolding write_row
row-bytes [] rest h = (omega arith, h)
row-bytes (n ∷ ns) rest h = ones-bytes n (0 ∷ write_row ns rest) (omega arith, row-bytes ns rest h)

rows-bytes : (rs : List (List ℕ)) → All IsByte (write_rows rs)
unfolding write_rows
rows-bytes [] = tt
rows-bytes (r ∷ rs) = row-bytes r (write_rows rs) (rows-bytes rs)

-- The authenticated data as rows.
owner_rows : OwnerId → List (List ℕ) → List (List ℕ)
owner_rows (uuid n) rest = (0 ∷ n ∷ []) ∷ [] ∷ [] ∷ [] ∷ rest
owner_rows (pending_v1 a b c n) rest = (1 ∷ n ∷ []) ∷ codes a ∷ codes b ∷ codes c ∷ rest

unfoldable aad_rows : Aad → List (List ℕ)
unfolding owner_rows
aad_rows a =
    owner_rows a.owner_id (codes a.provider_account_id ∷ codes a.key_id ∷ (a.version ∷ []) ∷ [])

owner_of : ℕ → ℕ → List ℕ → List ℕ → List ℕ → OwnerId
owner_of zero n a b c = uuid n
owner_of (suc k) n a b c = pending_v1 (text_of a) (text_of b) (text_of c) n

aad_of : List (List ℕ) → Aad
unfolding owner_of
aad_of ((k ∷ n ∷ []) ∷ a ∷ b ∷ c ∷ account ∷ kid ∷ (v ∷ []) ∷ []) =
    build_aad (owner_of k n a b c) (text_of account) (text_of kid) v
aad_of _ = build_aad (uuid 0) "" "" 0

from_rows :
    (owner : OwnerId) (account kid : String) (v : ℕ)
    → aad_of (aad_rows (build_aad owner account kid v)) ≡ build_aad owner account kid v
unfolding aad_of aad_rows
from_rows (uuid n) account kid v =
    λ i. build_aad (uuid n) (text_of-codes account i) (text_of-codes kid i) v
from_rows (pending_v1 a b c n) account kid v = λ i.
    build_aad (pending_v1 (text_of-codes a i) (text_of-codes b i) (text_of-codes c i) n)
      (text_of-codes account i) (text_of-codes kid i) v

aad_rows-injective : (a b : Aad) → aad_rows a ≡ aad_rows b → a ≡ b
aad_rows-injective a b h =
    sym (from_rows a.owner_id a.provider_account_id a.key_id a.version)
    ∙ ap aad_of h
    ∙ from_rows b.owner_id b.provider_account_id b.key_id b.version

Rows-discrete : Discrete (List (List ℕ))
Rows-discrete = hlevel (ℕ_discrete)

open_rows : List (List ℕ) → Aad → Opening
open_rows [] aad = refused
open_rows (plain ∷ rows) aad =
    ite (Rows-discrete (aad_rows aad) rows) (opened (text_of plain)) invalid_tag

pub toy : AesGcm
unfolding open_rows write_rows aad_rows text_of read_rows
toy = record {
  encrypt = λ key nonce plain aad. write_rows (codes plain ∷ aad_rows aad);
  decrypt = λ key nonce sealed aad. open_rows (read_rows 0 [] sealed) aad;
  token_bytes = λ n. n % 256 ∷ 1 ∷ 2 ∷ 3 ∷ 4 ∷ 5 ∷ 6 ∷ 7 ∷ 8 ∷ 9 ∷ 10 ∷ 11 ∷ [];
}

toy-opens :
    (plain : String) (aad : Aad)
    → open_rows (read_rows 0 [] (write_rows (codes plain ∷ aad_rows aad))) aad ≡ opened plain
unfolding open_rows
toy-opens plain aad =
    ap (λ rows. open_rows rows aad) (read-write (codes plain ∷ aad_rows aad))
    ∙ if_pos (Rows-discrete (aad_rows aad) (aad_rows aad)) refl (opened (text_of (codes plain)))
        invalid_tag
    ∙ ap opened (text_of-codes plain)

toy-rejects :
    (plain : String) (aad other : Aad)
    → other ≢ aad
    → open_rows (read_rows 0 [] (write_rows (codes plain ∷ aad_rows aad))) other ≡ invalid_tag
unfolding open_rows
toy-rejects plain aad other differ =
    ap (λ rows. open_rows rows other) (read-write (codes plain ∷ aad_rows aad))
    ∙ if_neg (Rows-discrete (aad_rows other) (aad_rows aad))
        (λ same. differ (aad_rows-injective other aad same)) (opened (text_of (codes plain)))
        invalid_tag

pub toy-IsSound : IsSound toy
unfolding toy
toy-IsSound = record {
  nonce_bytes = λ n. omega arith;
  nonce_length = λ n. refl;
  cipher_bytes = λ key nonce plain aad. rows-bytes (codes plain ∷ aad_rows aad);
  opens = λ key nonce plain aad hk hn. toy-opens plain aad;
  rejects = λ key nonce plain aad other hk hn differ. toy-rejects plain aad other differ;
}
