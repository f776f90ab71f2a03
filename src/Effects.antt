-- ===== src/Effects.antt =====
-- Python code that mutates state and may raise: what was written before a raise stays written, so
-- the state comes back beside the exception too. `try`/`except`, `try`/`finally` and `async with`
-- are combinators.
use fastapi_polyrepo_templat.Prelude.{ℕ, ◌≡◌, ◌≢◌, Bool, true, false, Text, if◌then◌else◌}

-- The exceptions that the program raises, catches or lets pass, one constructor for each class it
-- names. `library_error` is any other subclass of `Exception`, as redis-py or SQLAlchemy raise it.
pub data BaseException : Type 0 where
  feature_flag_not_found : Text → BaseException
  validation_error request_validation_error : BaseException
  http_exception : ℕ → Text → BaseException
  value_error runtime_error connection_error package_not_found attribute_error :
      Text → BaseException
  library_error : Text → BaseException
  os_error recursion_error : BaseException
  cancelled_error keyboard_interrupt system_exit : BaseException

-- What `except Exception` catches: `asyncio.CancelledError`, `KeyboardInterrupt` and `SystemExit`
-- are no subclasses of `Exception`.
unfoldable pub is_exception : BaseException → Bool
is_exception cancelled_error = false
is_exception keyboard_interrupt = false
is_exception system_exit = false
is_exception _ = true

pub data Result {ℓ} (A : Type ℓ) : Type ℓ where
  ok : A → Result A
  err : BaseException → Result A

pub ok-injective {ℓ} : {A : Type ℓ} {a b : A} → ok a ≡ ok b → a ≡ b
ok-injective e = cc

pub ok-ne-err {ℓ} : {A : Type ℓ} {a : A} {x : BaseException} → ok a ≢ err x
ok-ne-err e = cc

abbrev pub Exec {ℓ} : Type ℓ → Type ℓ → Type ℓ
Exec S A = S → Result A × S

module _ {ℓ} {S A : Type ℓ} where
  abbrev pub pure : A → Exec S A
  pure a s = (ok a, s)

  abbrev pub raise : BaseException → Exec S A
  raise e s = (err e, s)

  abbrev pub lift : Result A → Exec S A
  lift r s = (r, s)

module _ {ℓ} {S A B : Type ℓ} where
  abbrev pub and_then : Result A × S → (A → Exec S B) → Result B × S
  and_then (ok a, s) f = f a s
  and_then (err e, s) f = (err e, s)

  infixl 5 ◌>>=◌ ◌>>◌
  abbrev pub ◌>>=◌ : Exec S A → (A → Exec S B) → Exec S B
  ◌>>=◌ m f s = and_then (m s) f

  abbrev pub ◌>>◌ : Exec S A → Exec S B → Exec S B
  m >> n = m >>= λ _. n

abbrev pub modify : {S : Type 0} → (S → S) → Exec S Unit
modify f s = (ok tt, f s)

module _ {S A : Type 0} where
  -- What leaves a `finally` block: its own exception, or what the `try` block ended with.
  abbrev pub after_finally : Result A → Result (Unit {0}) × S → Result A × S
  after_finally r (ok _, s) = (r, s)
  after_finally r (err e, s) = (err e, s)

  abbrev pub finish : Result A × S → Exec S Unit → Result A × S
  finish (r, s) last = after_finally r (last s)

  -- `try: body finally: last`
  abbrev pub try_finally : Exec S A → Exec S Unit → Exec S A
  try_finally body last s = finish (body s) last

  abbrev pub recover : Result A × S → (BaseException → Exec S A) → Result A × S
  recover (ok a, s) handler = (ok a, s)
  recover (err e, s) handler = if is_exception e then handler e s else (err e, s)

  -- `try: body except Exception as exc: handler(exc)`
  abbrev pub try_except : Exec S A → (BaseException → Exec S A) → Exec S A
  try_except body handler s = recover (body s) handler
