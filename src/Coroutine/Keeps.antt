-- ===== src/Coroutine/Keeps.antt =====
-- Relations between the world before and after a coroutine, however it ends, with one rule for
-- each way to build a coroutine.
use social_media_scraper.Exceptions.{Error, Outcome, returned, raised, cancelled}
use social_media_scraper.Coroutine.{Coroutine, pure, raise, ◌>>=◌}

-- Whatever the start, the end stands in the relation `R` to it.
pub record Moves {A W : Type 0} (R : W → W → Type 0) (m : Coroutine W A) : Type 0 where
  pub at : (w : W) → R w (m w).1

-- The relation holds of a world and itself, and along two steps.
pub record IsPreorder {W : Type 0} (R : W → W → Type 0) : Type 0 where
  pub reflexive : (w : W) → R w w
  pub transitive : (u v w : W) → R u v → R v w → R u w

module _ {A W : Type 0} {R : W → W → Type 0} (p : IsPreorder R) where
  pub Moves-pure : (a : A) → Moves R (pure a)
  Moves-pure a = record { at = λ w. p.reflexive w }

  pub Moves-raise : (e : Error) → Moves R (raise {A = A} e)
  Moves-raise e = record { at = λ w. p.reflexive w }

module _ {A B W : Type 0} {R : W → W → Type 0} (p : IsPreorder R) where
  after :
      (f : A → Coroutine W B) (w : W) (o : Outcome A) (w' : W)
      → R w w'
      → ((a : A) → Moves R (f a))
      → R w (((λ (v : W). (o, v)) >>= f) w').1
  after f w (returned a) w' r mf = p.transitive w w' _ r ((mf a).at w')
  after f w (raised e) w' r mf = r
  after f w cancelled w' r mf = r

  pub Moves-bind :
      (m : Coroutine W A) (f : A → Coroutine W B)
      → Moves R m
      → ((a : A) → Moves R (f a))
      → Moves R (m >>= f)
  Moves-bind m f mm mf = record { at = λ w. after f w (m w).0 (m w).1 (mm.at w) mf }
