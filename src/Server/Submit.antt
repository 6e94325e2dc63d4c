-- ===== src/Server/Submit.antt =====
-- internal/server/handlers_submit.go: a viewer's submission, which is paid for before it is queued.
pub mod Charge
pub mod Laws
use media_share.Prelude.{
  ℕ, ◌+◌, Bool, true, false, not, ◌&&◌, Option, none, some, List, [], ◌∷◌, ◌++◌, Text, codes, same,
  is_empty, insert, ltb, if◌then◌else◌,
}
use media_share.Prelude.Int.{ℤ, pos, scale, int64, ltb_ℤ}
use media_share.Random.{Rng}
use media_share.Strings.{to_lower, trim_space}
use media_share.Youtube.{Url, parse_youtube}
use media_share.Store.Db.{Viewer, Result, ok, err, World}
use media_share.Store.Credits.{spend_credits}
use media_share.Tenant.{Tenant, resolve_session}
use media_share.Queue
use media_share.Server.{
  Config, max_upload_bytes, ext_allowed, Site, Reply, fault, too_poor, accepted,
}
use media_share.Server.Forms.{parse_start, clamp_duration, ext, orig_title}

abbrev pub min_billable_seconds : ℕ
min_billable_seconds = 10

-- The part of the form that holds a file, with the size in its header.
pub record Upload : Type 0 where
  pub filename : Text
  pub size : ℕ

pub record Form : Type 0 where
  pub session : Text
  pub kind : Text
  pub url : Text
  pub start : Text
  pub duration : Text
  pub file : Option Upload

-- What the disk answers: whether the directory and the file are made, how many bytes are copied and
-- closed (`none` is an error), and whether a removal works.
pub record Disk : Type 0 where
  pub made : Bool
  pub created : Bool
  pub copied : Option ℕ
  pub removable : Bool

-- What a submission reads besides the request: the ids of uuid.NewString, the token of the ledger
-- entry, the times and the clock's text, the disk, and net/url.
pub record Inputs : Type 0 where
  pub item_id : Text
  pub stored_id : Text
  pub ledger : Rng
  pub updated : ℕ
  pub now : ℕ
  pub submitted_at : ℕ
  pub uploaded_at : Text
  pub disk : Disk
  pub parse_url : Text → Option Url

-- `none` lets the submission through.
refusal : ℤ → Result (ℤ × Bool) → Option Reply
refusal cost (err e) = some (fault 500)
refusal cost (ok (balance, false)) = some (too_poor cost balance)
refusal cost (ok (balance, true)) = none

unfoldable pub price : Config → ℕ → ℤ
price c seconds = int64 (scale seconds c.credits_per_second)

unfoldable pub charge_submit :
    Config → Inputs → Viewer → Text → ℕ → Text → World → Option Reply × World
unfolding refusal price
charge_submit c i v streamer_id seconds ref w =
    if c.credits_enabled
    then (let (spent, w') =
          spend_credits i.ledger i.updated i.now v.id streamer_id (price c seconds) ref w in
        (refusal (price c seconds) spent, w'))
    else (none, w)

unfoldable pub billable_duration : Config → ℕ → ℕ
billable_duration c seconds =
    if c.credits_enabled && ltb seconds min_billable_seconds then min_billable_seconds else seconds

-- `t.Queue.Submit(item)`: every item of a handler has an id.
unfoldable pub enqueue : Inputs → Tenant → Queue.Item → Site → Reply × Site
enqueue i t it s =
    let o = Queue.submit i.item_id i.submitted_at it t.queue in
    (
      accepted o.result,
      record s {
        registry = record s.registry {
          tenants = insert t.streamer_id (record t { queue = o.manager }) s.registry.tenants;
        };
        sent = s.sent ++ o.calls;
      },
    )

-- `drop` is what a refused submission leaves of the files.
settle :
    (List Text → List Text)
    → Inputs
    → Tenant
    → Queue.Item
    → Site
    → Option Reply × World
    → Reply × Site
unfolding enqueue
settle drop i t it s (none, w) = enqueue i t it (record s { world = w })
settle drop i t it s (some reply, w) = (reply, record s { world = w; files = drop s.files })

-- The items as the handlers build them; `Submit` sets the status and the time.
new_item : Inputs → Queue.ItemType → Viewer → ℕ → Queue.Item
new_item i kind v seconds = record {
  id = i.item_id;
  kind = kind;
  title = [];
  submitter_name = v.display_name;
  status = Queue.Status.pending;
  submitted_at = 0;
  youtube_id = [];
  start_seconds = pos 0;
  media_url = [];
  duration_seconds = seconds;
}

-- An explicit start, where it parses, goes before the one of the link.
chosen_start : Text → ℤ → ℤ
chosen_start text from_url = elim (parse_start text) [ some n ↦ n | none ↦ from_url ]

youtube_item : Config → Inputs → Viewer → Form → Text × ℤ → Queue.Item
unfolding new_item chosen_start billable_duration
youtube_item c i v f (id, from_url) =
    record (new_item i Queue.ItemType.youtube v
      (billable_duration c (clamp_duration f.duration min_billable_seconds))) {
        -- the middle dot of the title is two bytes
        title = codes "YouTube " ++ 194 ∷ 183 ∷ codes " " ++ id;
        youtube_id = id;
        start_seconds = chosen_start (trim_space f.start) from_url;
      }

youtube_found : Config → Inputs → Viewer → Form → Tenant → Option (Text × ℤ) → Site → Reply × Site
unfolding youtube_item charge_submit settle
youtube_found c i v f t none s = (fault 400, s)
youtube_found c i v f t (some link) s =
    let it = youtube_item c i v f link in
    settle (λ files. files) i t it s
      (charge_submit c i v t.streamer_id it.duration_seconds it.id s.world)

unfoldable pub submit_youtube : Config → Inputs → Viewer → Form → Tenant → Site → Reply × Site
unfolding youtube_found
submit_youtube c i v f t = youtube_found c i v f t (parse_youtube i.parse_url (trim_space f.url))

pub remove_file : Bool → Text → List Text → List Text
remove_file removable name [] = []
remove_file removable name (x ∷ xs) =
    let rest = remove_file removable name xs in if removable && same x name then rest else x ∷ rest

upload_item : Config → Inputs → Viewer → Form → Upload → Text → Queue.Item
unfolding new_item billable_duration
upload_item c i v f u stored =
    record (new_item i Queue.ItemType.upload v
      (billable_duration c (clamp_duration f.duration 0))) {
        title = orig_title i.uploaded_at u.filename;
        media_url = codes "/media/" ++ stored;
      }

-- Behind the creation of the file.
copied : Config → Inputs → Viewer → Form → Upload → Tenant → Text → Option ℕ → Site → Reply × Site
unfolding upload_item charge_submit settle
copied c i v f u t stored none s =
    (fault 500, record s { files = remove_file i.disk.removable stored s.files })
copied c i v f u t stored (some written) s =
    if ltb_ℤ (max_upload_bytes c) (pos written)
    then (fault 413, record s { files = remove_file i.disk.removable stored s.files })
    else (let it = upload_item c i v f u stored in
        settle (remove_file i.disk.removable stored) i t it s
          (charge_submit c i v t.streamer_id it.duration_seconds it.id s.world))

store_upload : Config → Inputs → Viewer → Form → Upload → Tenant → Site → Reply × Site
unfolding copied
store_upload c i v f u t s =
    let extension = to_lower (ext u.filename) in
    let stored = i.stored_id ++ extension in
    if ltb_ℤ (max_upload_bytes c) (pos u.size)
    then (fault 413, s)
    else if not (ext_allowed c extension)
    then (fault 400, s)
    else if not i.disk.made
    then (fault 500, s)
    else if not i.disk.created
    then (fault 500, s)
    else copied c i v f u t stored i.disk.copied (record s { files = stored ∷ s.files })

with_file : Config → Inputs → Viewer → Form → Tenant → Option Upload → Site → Reply × Site
unfolding store_upload
with_file c i v f t none s = (fault 400, s)
with_file c i v f t (some u) s = store_upload c i v f u t s

unfoldable pub submit_upload : Config → Inputs → Viewer → Form → Tenant → Site → Reply × Site
unfolding with_file
submit_upload c i v f t = with_file c i v f t f.file

submit_kind : Config → Inputs → Viewer → Form → Tenant → Site → Reply × Site
submit_kind c i v f t s =
    if same f.kind (codes "youtube")
    then submit_youtube c i v f t s
    else if same f.kind (codes "upload")
    then submit_upload c i v f t s
    else (fault 400, s)

submit_to : Config → Inputs → Viewer → Form → Option Tenant → Site → Reply × Site
unfolding submit_kind
submit_to c i v f none s = (fault 403, s)
submit_to c i v f (some t) s = submit_kind c i v f t s

-- `none` is a request without a viewer, or a form that cannot be read.
unfoldable pub handle_submit : Config → Inputs → Option Viewer → Option Form → Site → Reply × Site
unfolding submit_to
handle_submit c i none f s = (fault 401, s)
handle_submit c i (some v) none s = (fault 400, s)
handle_submit c i (some v) (some f) s =
    submit_to c i v f (resolve_session (trim_space f.session) s.registry) s
