-- ===== src/Tests/Settings.antt =====
-- The default settings.
use social_media_scraper.Base.{Bool, ◌≡◌, ◌≢◌, none, some, List, Text, text_eq, get}
use social_media_scraper.Exceptions.{Outcome}
use social_media_scraper.Leads.{BusinessLead}
use social_media_scraper.Network.Retry.{RetryPolicy}
use social_media_scraper.Network.Session.{Environment, World, request_to}
use social_media_scraper.Discovery.Cards.{Search}
use social_media_scraper.Discovery.Run.{Browser, run_discovery}
use social_media_scraper.Discovery.Run.Found.{Ends, IsFound}
use social_media_scraper.Pipeline.Streaming.{State, Step, Reaches, finished}
use social_media_scraper.Settings.{limiter_settings, scroll_settings}
use social_media_scraper.Settings.Defaults.{default_settings, defaults_accepted}
use social_media_scraper.Settings.Components.{streaming_config, accepted_goes_on}

accepted_goes_on_example :
    ((W : Type 0) (request : Search) (browser : Browser W) (w : W)
      → Ends
          (IsFound request (scroll_settings default_settings) browser)
          (run_discovery request (scroll_settings default_settings) browser w))
    × ((R : Type 0) (env : Environment R) (p : RetryPolicy) (host : Text) (w : World)
        → env.limiter_settings ≡ limiter_settings default_settings
        → get host w.limiters ≡ none
        → (q : Outcome R × World) × (request_to env p host w ≡ some q))
    × ((leads : List BusinessLead) (is_set : Bool) (t : State)
        → Reaches (streaming_config default_settings leads) is_set t
        → t.body ≢ finished
        → (next : State) × Step (streaming_config default_settings leads) t next)
accepted_goes_on_example = accepted_goes_on default_settings defaults_accepted
