-- ===== src/Sql/Ensures.antt =====
-- Postconditions of the parsing functions of src/sql.c, and what the lexical ones promise.
use Prim.Native.String.{String}
use tryo.Prelude.{
  ℕ, suc, ◌+◌, ◌≤◌, ◌<◌, ◌≡◌, refl, ap, sym, subst, Bool, true, false, Option, none, some, [], ◌∷◌,
  arith, leb, ◌==◌, Bytes, next, skip_ws, length, Bool-cases, inl, inr,
}
use tryo.Sql.{
  db_name_max, int_max, Parsed, ok, fail, ◌>>=◌, ◌or_fail◌, guard, cons_word, parse_int_value,
  literal_loop, parse_string_literal,
}

-- the result, if there is one, has the property
pub data Ensures {ℓ} {A : Type ℓ} (P : A → Type 0) : Parsed A → Type ℓ where
  returns : (a : A) → P a → Ensures P (ok a)
  fails : (message : String) → Ensures P (fail message)

pub Ensures-bind {ℓ κ} :
    {A : Type ℓ} {B : Type κ} {Q : A → Type 0} {P : B → Type 0} {m : Parsed A} (f : A → Parsed B)
    → Ensures Q m
    → ((a : A) → Q a → Ensures P (f a))
    → Ensures P (m >>= f)
Ensures-bind f (returns a h) k = k a h
Ensures-bind f (fails m) k = fails m

-- a consequence of the property
pub Ensures-weaken {ℓ} :
    {A : Type ℓ} {Q P : A → Type 0} {m : Parsed A}
    → Ensures Q m
    → ((a : A) → Q a → P a)
    → Ensures P m
Ensures-weaken (returns a h) k = returns a (k a h)
Ensures-weaken (fails m) k = fails m

pub Ensures-or_fail {ℓ} :
    {A : Type ℓ} (Q : A → Type 0) (o : Option A) (message : String)
    → ((a : A) → o ≡ some a → Q a)
    → Ensures Q (o or_fail message)
Ensures-or_fail Q none message h = fails message
Ensures-or_fail Q (some a) message h = returns a (h a refl)

pub Ensures-any {ℓ} : {A : Type ℓ} (m : Parsed A) → Ensures (λ r. Unit {0}) m
Ensures-any (ok a) = returns a tt
Ensures-any (fail m) = fails m

pub Ensures-guard : (b : Bool) (message : String) → Ensures (λ _. b ≡ true) (guard b message)
Ensures-guard true message = returns tt refl
Ensures-guard false message = fails message

pub Ensures-ok {ℓ} :
    {A : Type ℓ} (P : A → Type 0) (m : Parsed A) {a : A} → m ≡ ok a → Ensures P m → P a
Ensures-ok P (ok x) h (returns y p) = let e : x ≡ _ = cc in rw e at p
Ensures-ok P (fail x) h (fails y) = cc

cons_word-some :
    (c : ℕ) (o : Option (Bytes × Bytes)) (w r : Bytes)
    → cons_word c o ≡ some (w, r)
    → (w' : Bytes) × (o ≡ some (w', r)) × (w ≡ c ∷ w')
cons_word-some c none w r h = cc
cons_word-some c (some (w', r')) w r h = (w', cc, cc)

pub any_step {ℓ} :
    {A : Type ℓ} (o : Option A) (message : String) → Ensures (λ r. Unit {0}) (o or_fail message)
any_step o message = Ensures-or_fail _ o message (λ r e. tt)

-- a name that a literal can hold: it fits `char name[128]` with the NUL and has no quote
abbrev pub NoQuote : Bytes → Type 0
NoQuote [] = Unit
NoQuote (c ∷ s) = ((c == b'\'') ≡ false) × NoQuote s

abbrev pub Literal : Bytes → Type 0
Literal s = (length s < 128) × NoQuote s

literal_loop-Literal :
    (n : ℕ) (p : Bytes) (len : ℕ) (w r : Bytes)
    → len < n
    → literal_loop n p len ≡ some (w, r)
    → (len + length w < n) × NoQuote w
unfolding literal_loop
literal_loop-Literal n [] len w r h e = cc
literal_loop-Literal n (c ∷ p) len w r h e = elim (Bool-cases (c == b'\'')) [
  | inl quote ↦
      (let empty : ◌≡◌ {A = Option (Bytes × Bytes)} (some ([], p)) (some (w, r)) = rw quote at e in
        let no_bytes : [] ≡ w = cc in rw (← no_bytes) (omega arith, tt))
  | inr other ↦ (elim (Bool-cases (leb n (len + 1))) [
    | inl full ↦ cc (rw (other, full) at e)
    | inr room ↦
        (let (w', e', q) =
            cons_word-some c (literal_loop n p (suc len)) w r (rw (other, room) at e) in
          let ih = literal_loop-Literal n p (suc len) w' r (ground arith) e' in
          (omega (arith, ih.0, ap length q), subst NoQuote (sym q) (other, ih.1)))
  ])
]

parse_string_literal-Literal :
    (p : Bytes) (w r : Bytes) → parse_string_literal p 128 ≡ some (w, r) → Literal w
unfolding parse_string_literal
parse_string_literal-Literal p w r e =
    let fits = literal_loop-Literal 128 (next (skip_ws p)) 0 w r (omega arith) (ground arith) in
    (omega (arith, fits.0), fits.1)

parse_int_value-fits :
    (p : Bytes) (v : ℕ) (r : Bytes) → parse_int_value p ≡ some (v, r) → v ≤ int_max
unfolding parse_int_value
parse_int_value-fits p v r e = ground arith

pub string_step :
    (p : Bytes) (message : String)
    → Ensures (λ r. Literal r.0) (parse_string_literal p db_name_max or_fail message)
string_step p message =
    Ensures-or_fail _ (parse_string_literal p 128) message
      (λ r e. parse_string_literal-Literal p r.0 r.1 e)

pub int_step :
    (p : Bytes) (message : String)
    → Ensures (λ r. r.0 ≤ int_max) (parse_int_value p or_fail message)
int_step p message =
    Ensures-or_fail _ (parse_int_value p) message (λ r e. parse_int_value-fits p r.0 r.1 e)
