-- ===== src/Server/Pages/Laws.antt =====
-- Who joins a room, and the site behind the pages.
use media_share.Prelude.{
  ℕ, Bool, true, false, ◌≡◌, refl, ◌∙◌, inl, inr, some, Text, codes, same, same_iff, arith,
  Bool-cases, Option-cases, select-fits,
}
use media_share.Store.Db.{Role, Streamer, Result, ok, err, World}
use media_share.Store.People.{get_streamer, get_streamer_by_player_key, select_streamer_by_key}
use media_share.Store.Sessions.{get_valid_auth_session, resolve_moderator_link}
use media_share.Config
use media_share.Tenant.{initial_messages}
use media_share.Tenant.Links.{Control, control}
use media_share.Auth.Middleware.{Request, authenticate, require_streamer, same_site, streamer_gate}
use media_share.Auth.Middleware.Guards.{authenticate_inv}
use media_share.Auth.Middleware.Frames.{Frames, authenticate-Frames, authenticate_viewer-Frames}
use media_share.Server.{Site}
use media_share.Server.Sound.{IsSound, framed-IsSound, control-IsSound, player-Frames}
use media_share.Server.Viewers.Laws.{resolve_link-Frames}
use media_share.Server.Pages.{
  Joined, as_admin, as_player, rejected, View, admin_room, player_room, handle_ws, handle_index,
  handle_submit_page, handle_player_page, handle_mod_claim_page, claim_for, handle_state,
  require_streamer_page, greeting, serve_ws, me_route, answered,
}

-- Whom the WebSocket's request admits to a room.
pub data Admitted (now : ℕ) (r : Request) (key : Text) (w : World) : Joined → Type 0 where
  owner_session :
      (id room : Text) (st : Streamer) (role : Role)
      → r.sid_cookie ≡ some id
      → (get_valid_auth_session now id w).0 ≡ ok (st, role)
      → st.id ≡ room
      → Admitted now r key w (as_admin room)
  player_key :
      (room : Text) (st : Streamer)
      → select_streamer_by_key key w.db ≡ some st
      → st.player_key ≡ key
      → st.id ≡ room
      → Admitted now r key w (as_player room)
  turned_away : (n : ℕ) → Admitted now r key w (rejected n)

admin-Admitted :
    (now : ℕ) (r : Request) (key : Text) (w : World) (who : Result (Streamer × Role))
    → (authenticate now r w).0 ≡ who
    → Admitted now r key w (admin_room who)
unfolding admin_room
admin-Admitted now r key w (ok (st, role)) e =
    let (id, at, valid, same_world) = authenticate_inv now r w (st, role) e in
    Admitted.owner_session id st.id st role at valid refl
admin-Admitted now r key w (err e) h = Admitted.turned_away 401

key-fits :
    (key : Text) (w : World) (st : Streamer)
    → (get_streamer_by_player_key key w).0 ≡ ok st
    → (select_streamer_by_key key w.db ≡ some st) × (st.player_key ≡ key)
unfolding get_streamer_by_player_key select_streamer_by_key
key-fits key w st h =
    let found : select_streamer_by_key key w.db ≡ some st = elim (Bool-cases (w.faults w.calls)) [
      | inl fails ↦ absurd (ground arith)
      | inr works ↦ elim (Option-cases (select_streamer_by_key key w.db)) [
        | inl missing ↦ absurd (ground arith)
        | inr (x, at) ↦ ground arith
      ]
    ] in
    (
      found,
      (same_iff st.player_key key).0
          (select-fits (λ (s : Streamer). same s.player_key key) w.db.streamers st found),
    )

player-Admitted :
    (now : ℕ) (r : Request) (key : Text) (w : World) (st : Result Streamer)
    → (get_streamer_by_player_key key w).0 ≡ st
    → Admitted now r key w (player_room st)
unfolding player_room
player-Admitted now r key w (ok st) e =
    let (found, fits) = key-fits key w st e in Admitted.player_key st.id st found fits refl
player-Admitted now r key w (err e) h = Admitted.turned_away 404

-- A WebSocket joins a streamer's room as an admin only with a session that the store accepts for that
-- streamer, and as a player only with the streamer's player key; any other request is turned away.
pub handle_ws-Admitted :
    (now : ℕ) (r : Request) (role key : Text) (w : World)
    → Admitted now r key w (handle_ws now r role key w).0
unfolding handle_ws
handle_ws-Admitted now r role key w = elim (Bool-cases (same role (codes "admin"))) [
  | inl admin ↦ rw admin (admin-Admitted now r key w (authenticate now r w).0 refl)
  | inr other ↦ elim (Bool-cases (same role (codes "player"))) [
    | inl player ↦
        rw (other, player) (player-Admitted now r key w (get_streamer_by_player_key key w).0 refl)
    | inr neither ↦ rw (other, neither) (Admitted.turned_away 400)
  ]
]

-- The pages leave the accounts alone.
pub index-Frames :
    (c : Config.Config) (now : ℕ) (r : Request) (path error : Text) (w : World)
    → Frames w (handle_index c now r path error w).1
unfolding handle_index
index-Frames c now r path error w = elim (Bool-cases (same path (codes "/"))) [
  | inl root ↦ rw root (authenticate-Frames now r w)
  | inr other ↦ rw other (refl, refl, refl)
]

pub page-Frames :
    (now : ℕ) (next : Streamer → Role → View) (r : Request) (w : World)
    → Frames w (require_streamer_page now next r w).1
unfolding require_streamer_page
page-Frames now next r w = authenticate-Frames now r w

pub submit_page-Frames :
    (c : Config.Config) (now : ℕ) (r : Request) (path query : Text) (w : World)
    → Frames w (handle_submit_page c now r path query w).1
unfolding handle_submit_page
submit_page-Frames c now r path query w = authenticate_viewer-Frames now r w

pub player_page-Frames : (key : Text) (w : World) → Frames w (handle_player_page key w).1
unfolding handle_player_page
player_page-Frames key w = player-Frames key w

claim_for-Frames : (token : Text) (id : Result Text) (w : World) → Frames w (claim_for token id w).1
unfolding claim_for get_streamer
claim_for-Frames token (err e) w = (refl, refl, refl)
claim_for-Frames token (ok id) w = (ground arith, ground arith, ground arith)

pub mod_claim_page-Frames : (token : Text) (w : World) → Frames w (handle_mod_claim_page token w).1
unfolding handle_mod_claim_page
mod_claim_page-Frames token w =
    let (id, w') = resolve_moderator_link token w in
    let (b, l, t) = claim_for-Frames token id w' in
    let (b', l', t') = resolve_link-Frames token w in (b ∙ b', l ∙ l', t ∙ t')

ws-Frames :
    (now : ℕ) (r : Request) (role key : Text) (w : World) → Frames w (handle_ws now r role key w).1
unfolding handle_ws
ws-Frames now r role key w = elim (Bool-cases (same role (codes "admin"))) [
  | inl admin ↦ rw admin (authenticate-Frames now r w)
  | inr other ↦ elim (Bool-cases (same role (codes "player"))) [
    | inl player ↦ rw (other, player) (player-Frames key w)
    | inr neither ↦ rw (other, neither) (refl, refl, refl)
  ]
]

pub state-IsSound : (id : Text) (s : Site) → IsSound s → IsSound (handle_state id s).1
unfolding handle_state control
state-IsSound id s h = control-IsSound (Control.open_tenant id) s tt h

greeting-IsSound :
    (upgraded : Bool) (joined : Joined) (s : Site)
    → IsSound s
    → IsSound (record s { registry = (greeting upgraded joined s.registry).1 })
unfolding greeting initial_messages control
greeting-IsSound false joined s h = h
greeting-IsSound true (rejected code) s h = h
greeting-IsSound true (as_admin room) s h = control-IsSound (Control.open_tenant room) s tt h
greeting-IsSound true (as_player room) s h = control-IsSound (Control.open_tenant room) s tt h

-- A WebSocket authenticates, and opens the tenant of its room.
pub ws-IsSound :
    (upgraded : Bool) (now : ℕ) (r : Request) (role key : Text) (s : Site)
    → IsSound s
    → IsSound (serve_ws upgraded now r role key s).1
unfolding serve_ws
ws-IsSound upgraded now r role key s h =
    let (joined, w) = handle_ws now r role key s.world in
    greeting-IsSound upgraded joined (record s { world = w })
      (framed-IsSound s w (ws-Frames now r role key s.world) h)

gate-Frames :
    (c : Config.Config) (w : World) (who : Result (Streamer × Role)) (w' : World)
    → Frames w w'
    → Frames w (streamer_gate (answered c) who w').1
unfolding streamer_gate answered
gate-Frames c w (ok (st, role)) w' same = same
gate-Frames c w (err e) w' same = same

pub me-Frames :
    (c : Config.Config) (now : ℕ) (r : Request) (w : World) → Frames w (me_route c now r w).1
unfolding me_route require_streamer
me-Frames c now r w = elim (Bool-cases (same_site r)) [
  | inr cross ↦ rw cross (refl, refl, refl)
  | inl own ↦
      let a = authenticate now r w in rw own (gate-Frames c w a.0 a.1 (authenticate-Frames now r w))
]
