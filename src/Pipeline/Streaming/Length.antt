-- ===== src/Pipeline/Streaming/Length.antt =====
-- How many leads the streaming part has.
use social_media_scraper.Base.{ℕ, zero, suc, ◌≡◌, refl, ap, ◌∙◌, Bool, List, [], ◌∷◌, length}
use social_media_scraper.Pipeline.Streaming.{
  Config, State, Step, Reaches, update, handle, init, feeder_put, enrich_start, enrich_skip,
  enrich_end, enrich_pass, enrich_exit, social_start, social_skip, social_end, social_exit,
  gathered, close_put, joined, start, step, request_cancellation,
}

length-update : {A : Type 0} (n : ℕ) (f : A → A) (xs : List A) → length (update n f xs) ≡ length xs
unfolding update
length-update n f [] = refl
length-update zero f (x ∷ xs) = refl
length-update (suc n) f (x ∷ xs) = ap suc (length-update n f xs)

Step-length : (c : Config) (s t : State) → Step c s t → length t.store ≡ length s.store
unfolding handle
Step-length c s _ (feeder_put x rest e room) = refl
Step-length c s _ (enrich_start i rest e idle h) = refl
Step-length c s _ (enrich_skip i rest e idle h) = refl
Step-length c s _ (enrich_end i before after o e) = length-update i _ s.store
Step-length c s _ (enrich_pass i before after e room) = refl
Step-length c s _ (enrich_exit rest e idle) = refl
Step-length c s _ (social_start i rest e idle h) = refl
Step-length c s _ (social_skip i rest e idle h) = length-update i _ s.store
Step-length c s _ (social_end i before after found e) = length-update i _ s.store
Step-length c s _ (social_exit rest e idle) = refl
Step-length c s _ (gathered b f e) = refl
Step-length c s _ (close_put k b room) = refl
Step-length c s _ (joined b e) = refl

-- No lead is dropped or added on the way.
pub Reaches-length :
    (c : Config) (b : Bool) (s : State) → Reaches c b s → length s.store ≡ length c.leads
unfolding init
Reaches-length c b _ start = refl
Reaches-length c b _ (step s t r h) = Step-length c s t h ∙ Reaches-length c b s r
Reaches-length c b _ (request_cancellation s r) = Reaches-length c b s r
