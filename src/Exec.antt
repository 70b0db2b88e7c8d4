-- ===== src/Exec.antt =====
-- Methods that change an object and may throw: what was written before a throw stays written, so
-- the object comes back beside the error too.
use likelib_utonhack.Prelude.{◌≡◌, refl, if◌then◌else◌, nat_eq, bytes_equality}
use likelib_utonhack.Outcome.{Outcome, ok, raise, Error, is_base_error}

abbrev pub Exec {ℓ κ} : Type ℓ → Type κ → Type (ℓ ⊔ κ)
Exec S A = S → Outcome A × S

abbrev continue {ℓ κ} : {S : Type ℓ} {A B : Type κ} → Outcome A → (A → Exec S B) → Exec S B
continue (ok a) f s = f a s
continue (raise e) f s = (raise e, s)

infixl 10 ◌>>=◌
abbrev pub ◌>>=◌ {ℓ κ} : {S : Type ℓ} {A B : Type κ} → Exec S A → (A → Exec S B) → Exec S B
◌>>=◌ m f s = continue (m s).0 f (m s).1

infixl 10 ◌>>◌
abbrev pub ◌>>◌ {ℓ κ} : {S : Type ℓ} {A B : Type κ} → Exec S A → Exec S B → Exec S B
m >> n = m >>= λ _. n

abbrev pub pure {ℓ κ} : {S : Type ℓ} {A : Type κ} → A → Exec S A
pure a s = (ok a, s)

abbrev pub throw {ℓ κ} : {S : Type ℓ} {A : Type κ} → Error → Exec S A
throw e s = (raise e, s)

-- A result that was computed without the object.
abbrev pub lift {ℓ κ} : {S : Type ℓ} {A : Type κ} → Outcome A → Exec S A
lift r s = (r, s)

-- try { m } catch (const base::Error&) { handler }
abbrev handle {ℓ κ} : {S : Type ℓ} {A : Type κ} → Outcome A → Exec S A → Exec S A
handle (ok a) handler s = (ok a, s)
handle (raise e) handler s = if is_base_error e then handler s else (raise e, s)

abbrev pub try_catch {ℓ κ} : {S : Type ℓ} {A : Type κ} → Exec S A → Exec S A → Exec S A
try_catch m handler s = handle (m s).0 handler (m s).1

-- How a block runs when its first step returns or throws.
pub bind-ok {ℓ κ} :
    {S : Type ℓ} {A B : Type κ} (m : Exec S A) (f : A → Exec S B) {a : A} {s s' : S}
    → m s ≡ (ok a, s')
    → (m >>= f) s ≡ f a s'
bind-ok m f h = rw h

pub bind-raise {ℓ κ} :
    {S : Type ℓ} {A B : Type κ} (m : Exec S A) (f : A → Exec S B) {e : Error} {s s' : S}
    → m s ≡ (raise e, s')
    → (m >>= f) s ≡ (raise e, s')
bind-raise m f h = rw h

split {ℓ κ} :
    {S : Type ℓ} {A B : Type κ} (x : Outcome A × S) (f : A → Exec S B) {b : B} {s' : S}
    → continue x.0 f x.1 ≡ (ok b, s')
    → (a : A) × (x ≡ (ok a, x.1)) × (f a x.1 ≡ (ok b, s'))
split (ok a, s) f h = (a, refl, h)
split (raise e, s) f h = absurd cc

-- A block that returns returned from its first step.
pub bind-split {ℓ κ} :
    {S : Type ℓ} {A B : Type κ} (m : Exec S A) (f : A → Exec S B) {b : B} {s s' : S}
    → (m >>= f) s ≡ (ok b, s')
    → (a : A) × (m s ≡ (ok a, (m s).1)) × (f a (m s).1 ≡ (ok b, s'))
bind-split m f {s = s} h = split (m s) f h
