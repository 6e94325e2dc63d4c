-- ===== src/Server/Tests.antt =====
-- A paid submission to an open session, and a signed cheer.
use media_share.Prelude.{
  ℕ, ◌≡◌, ◌⊎◌, refl, Bool, true, false, Option, none, some, List, [], ◌∷◌, ◌++◌, Text, codes,
  exists,
}
use media_share.Prelude.Int.{pos}
use media_share.Random.{Rng}
use media_share.Strings.{trim_space}
use media_share.Store.Db.{Db, calm}
use media_share.Store.Credits.Replay.{is_event}
use media_share.Store.Tests.{shop, shop-IsSettled, vic_row}
use media_share.Tenant.{new_registry, start_session}
use media_share.Tenant.Links.{Control, control, run-IsIndexed}
use media_share.Tenant.Queues.{control-QueuesValid}
use media_share.Auth.Middleware.{Method, Request}
use media_share.Server.Sound.{IsSound}
use media_share.Server.Requests.{AllMint, Call, serve_all}
use media_share.Server.Requests.Laws.{serve_all-IsSound}
use media_share.Server.{Config, Site}
use media_share.Server.Submit.{Form, Inputs, handle_submit}
use media_share.Server.Submit.Laws.{Submitted, handle_submit-Submitted}
use media_share.Server.EventSub.{
  Envelope, CheerEvent, Message, Setting, event_sub_signature, handle_event_sub,
}
use media_share.Server.EventSub.Laws.{Credits, handle_event_sub-authentic, handle_event_sub-replay}

abbrev bytes : ℕ → Rng
bytes b _ = b

abbrev config : Config
config = record {
  max_upload_mb = pos 50;
  allowed_ext = codes ".mp4" ∷ [];
  credits_enabled = true;
  credits_per_second = pos 2;
}

abbrev site : Site
site = record {
  world = calm shop;
  states = [];
  registry = (start_session (codes "ann") (bytes 1) 5 new_registry).registry;
  files = [];
  sent = [];
}

abbrev form : Form
form = record {
  session = (start_session (codes "ann") (bytes 1) 5 new_registry).result;
  kind = codes "youtube";
  url = codes "dQw4w9WgXcQ";
  start = [];
  duration = codes "30";
  file = none;
}

abbrev inputs : Inputs
inputs = record {
  item_id = codes "item";
  stored_id = codes "stored";
  ledger = bytes 2;
  updated = 6;
  now = 6;
  submitted_at = 6;
  uploaded_at = codes "10:00:00";
  disk = record { made = true; created = true; copied = none; removable = true };
  parse_url = λ _. none;
}

handle_submit-Submitted_example :
    Submitted config vic_row
      (trim_space form.session)
      site
      (handle_submit config inputs (some vic_row) (some form) site).0
      (handle_submit config inputs (some vic_row) (some form) site).1
handle_submit-Submitted_example =
    handle_submit-Submitted config inputs vic_row form site shop-IsSettled

abbrev cheer : CheerEvent
cheer = record {
  is_anonymous = false;
  user_id = codes "vic";
  user_login = codes "vic";
  user_name = codes "Vic";
  broadcaster_user_id = codes "ann";
  bits = pos 50;
}

abbrev setting : Setting
setting = record {
  hmac = λ secret message. secret ++ message;
  decode = λ body. some (record { challenge = []; event = some cheer });
  parse_time = λ text. some 1000;
  secret = codes "k";
  clock = 2000;
  ledger = bytes 3;
  received = 2;
  now = 2;
}

abbrev message : Message
message = record {
  id = codes "m1";
  timestamp = codes "t";
  signature =
      event_sub_signature (λ secret text. secret ++ text) (codes "k") (codes "m1") (codes "t")
        (codes "{}");
  kind = codes "notification";
  body = codes "{}";
}

handle_event_sub-authentic_example :
    ((handle_event_sub setting (some message) (calm shop)).1.db ≡ shop)
    ⊎ Credits setting message shop (handle_event_sub setting (some message) (calm shop)).1.db
handle_event_sub-authentic_example = handle_event_sub-authentic setting message (calm shop) refl

abbrev credited_shop : Db
credited_shop = (handle_event_sub setting (some message) (calm shop)).1.db

recorded : exists (is_event (codes "m1")) credited_shop.bits_events ≡ true
unfolding handle_event_sub exists media_share.Prelude.select
    media_share.Server.EventSub.verify_signature media_share.Prelude.same media_share.Random.hex
    media_share.Server.EventSub.timestamp_fresh media_share.Store.Credits.credit_bits
    media_share.Store.Credits.insert_bits_event media_share.Store.Credits.upsert_event_viewer
    media_share.Store.Credits.add_credits media_share.Store.Credits.append_ledger
    media_share.Random.rand_token
recorded = refl

handle_event_sub-replay_example :
    (handle_event_sub setting (some message) (calm credited_shop)).1.db ≡ credited_shop
handle_event_sub-replay_example =
    handle_event_sub-replay setting message (calm credited_shop) refl recorded

abbrev moderating : Request
moderating = record {
  method = Method.post;
  sec_fetch_site = codes "same-origin";
  sid_cookie = some (codes "old");
  vsid_cookie = none;
}

abbrev requests : List Call
requests =
    Call.session_start 5 moderating (bytes 4)
    ∷ Call.event_sub setting (some message)
    ∷ Call.submit 6 moderating config inputs (some form)
    ∷ Call.skip 7 moderating
    ∷ Call.session_stop 8 moderating
    ∷ []

site-IsSound : IsSound site
unfolding control new_registry media_share.Prelude.lookup media_share.Tenant.Links.run
site-IsSound = record {
  settled = shop-IsSettled;
  indexed = run-IsIndexed (Control.start (codes "ann") (bytes 1) 5 ∷ []) (refl, tt);
  queues =
      control-QueuesValid (Control.start (codes "ann") (bytes 1) 5) new_registry (λ id t e. cc);
}

requests_mint : AllMint requests site
unfolding start_session new_registry media_share.Prelude.lookup media_share.Random.new_token
    media_share.Prelude.insert media_share.Prelude.same media_share.Prelude.delete
    media_share.Tenant.new_tenant
requests_mint = (refl, (tt, (tt, (tt, (tt, tt)))))

serve_all-IsSound_example : IsSound (serve_all requests site)
serve_all-IsSound_example = serve_all-IsSound requests site requests_mint site-IsSound
