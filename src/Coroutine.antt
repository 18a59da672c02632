-- ===== src/Coroutine.antt =====
-- A coroutine run to its end: it reads and changes the world `W`, and returns, raises or is
-- cancelled. What was changed before a raise stays changed.
pub mod Keeps
use social_media_scraper.Base.{Option, none, some}
use social_media_scraper.Exceptions.{Error, Outcome, returned, raised, cancelled}

abbrev pub Coroutine {ℓ} : Type ℓ → Type ℓ → Type ℓ
Coroutine W A = W → Outcome A × W

module _ {ℓ} {W A : Type ℓ} where
  abbrev pub pure : A → Coroutine W A
  pure a w = (returned a, w)

  abbrev pub raise : Error → Coroutine W A
  raise e w = (raised e, w)

  abbrev pub gets : (W → A) → Coroutine W A
  gets f w = (returned (f w), w)

  abbrev pub lift : Outcome A → Coroutine W A
  lift o w = (o, w)

  -- `try: return await m` with an `except Exception as e: handler(e)`.
  abbrev pub catching : Coroutine W A → (Error → Coroutine W A) → Coroutine W A
  catching m handler w =
      let (o, w') = m w in
      elim o [
        | returned a ↦ (returned a, w')
        | raised e ↦ handler e w'
        | cancelled ↦ (cancelled, w')
      ]

module _ {ℓ} {W A B : Type ℓ} where
  -- the end of a `finally` clause: what the clause raises takes the place of what came before
  abbrev pub end_finally : Outcome A → Outcome B × W → Outcome A × W
  end_finally o (returned b, w) = (o, w)
  end_finally o (raised e, w) = (raised e, w)
  end_finally o (cancelled, w) = (cancelled, w)

  -- `try: return await m` with a `finally: await clause`
  abbrev pub finally : Coroutine W A → Coroutine W B → Coroutine W A
  finally m clause w = let (o, w') = m w in end_finally o (clause w')

infixl 5 ◌>>=◌ ◌>>◌
abbrev pub ◌>>=◌ {ℓ} : {W A B : Type ℓ} → Coroutine W A → (A → Coroutine W B) → Coroutine W B
◌>>=◌ m f w =
    let (o, w') = m w in
    elim o [ returned a ↦ f a w' | raised e ↦ (raised e, w') | cancelled ↦ (cancelled, w') ]

abbrev pub ◌>>◌ {ℓ} : {W A B : Type ℓ} → Coroutine W A → Coroutine W B → Coroutine W B
m >> k = m >>= λ _. k

abbrev pub modify : {W : Type 0} → (W → W) → Coroutine W Unit
modify f w = (returned tt, f w)
