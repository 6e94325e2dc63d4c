-- ===== src/Auth/Middleware/Guards.antt =====
-- Who gets through the middleware.
use media_share.Prelude.{
  ℕ, ◌≡◌, ◌≢◌, ◌⊎◌, refl, ◌∙◌, sym, ap, inl, inr, Bool, true, false, ◌||◌, none, some, [], ◌∷◌,
  Text, codes, same, same_iff, is_empty, arith, Bool-cases, Option-cases,
}
use media_share.Strings.{to_lower}
use media_share.Store.Db.{Role, owner, moderator, Streamer, Result, ok, err, World}
use media_share.Store.Sessions.{get_valid_auth_session, revoke_moderator_access}
use media_share.Store.Sessions.Revocation.{revoked-moderators}
use media_share.Auth.Middleware.{
  Method, Request, is_safe, same_site, authenticate, known, with_cookie, streamer_gate,
  require_streamer, owner_gate, require_owner, passed, Handler,
}

-- A request that authenticates carries the cookie of a session that the store accepts.
pub authenticate_inv :
    (now : ℕ) (r : Request) (w : World) (who : Streamer × Role)
    → (authenticate now r w).0 ≡ ok who
    → (id : Text) × (r.sid_cookie ≡ some id)
      × ((get_valid_auth_session now id w).0 ≡ ok who)
      × ((authenticate now r w).1 ≡ (get_valid_auth_session now id w).1)
unfolding authenticate with_cookie known
authenticate_inv now r w who h = elim (Option-cases r.sid_cookie) [
  | inl missing ↦ ground arith
  | inr (id, at) ↦ (id, at, ground arith, ground arith)
]

streamer_gate_inv :
    {A : Type 0} (next : Streamer → Role → Handler A) (who : Result (Streamer × Role)) (w : World)
    (a : A)
    → (streamer_gate next who w).0 ≡ passed a
    → (st : Streamer) × (role : Role) × (who ≡ ok (st, role))
unfolding streamer_gate
streamer_gate_inv next (ok (st, role)) w a h = (st, role, refl)
streamer_gate_inv next (err e) w a h = ground arith

-- The methods that change nothing.
abbrev pub IsReading : Method → Type 0
IsReading m = (m ≡ Method.get) ⊎ (m ≡ Method.head) ⊎ (m ≡ Method.options)

-- What the header holds, in lower case, where the site check lets any method through.
abbrev pub IsOwnSite : Text → Type 0
IsOwnSite site =
    (site ≡ []) ⊎ (site ≡ codes "same-origin") ⊎ (site ≡ codes "same-site") ⊎ (site ≡ codes "none")

is_safe_inv : (m : Method) → is_safe m ≡ true → IsReading m
unfolding is_safe
is_safe_inv Method.get h = inl refl
is_safe_inv Method.head h = inr (inl refl)
is_safe_inv Method.options h = inr (inr refl)
is_safe_inv Method.post h = cc
is_safe_inv Method.put h = cc
is_safe_inv Method.patch h = cc
is_safe_inv Method.delete_method h = cc

is_empty_inv : (t : Text) → is_empty t ≡ true → t ≡ []
is_empty_inv [] h = refl
is_empty_inv (c ∷ t) h = cc

or_cases : (a b : Bool) → (a || b) ≡ true → (a ≡ true) ⊎ (b ≡ true)
or_cases true b h = inl refl
or_cases false b h = inr h

-- Every answer of the site check that lets a request through has one of its reasons.
same_site_inv :
    (r : Request) → same_site r ≡ true → IsReading r.method ⊎ IsOwnSite (to_lower r.sec_fetch_site)
unfolding same_site
same_site_inv r h =
    let site = to_lower r.sec_fetch_site in
    elim (or_cases _ (same site (codes "none")) h) [
      | inr typed ↦ inr (inr (inr (inr ((same_iff site (codes "none")).0 typed))))
      | inl a ↦ elim (or_cases _ (same site (codes "same-site")) a) [
        | inr near ↦ inr (inr (inr (inl ((same_iff site (codes "same-site")).0 near))))
        | inl b ↦ elim (or_cases _ (same site (codes "same-origin")) b) [
          | inr origin ↦ inr (inr (inl ((same_iff site (codes "same-origin")).0 origin)))
          | inl c ↦ elim (or_cases (is_safe r.method) (is_empty site) c) [
            | inr unsent ↦ inr (inl (is_empty_inv site unsent))
            | inl safe ↦ inl (is_safe_inv r.method safe)
          ]
        ]
      ]
    ]

-- The handler behind `RequireStreamer` runs only for a request that the site check lets through and that
-- carries a session that the store accepts, and it gets the streamer and the role of that session.
require_streamer-passes :
    {A : Type 0} (now : ℕ) (next : Streamer → Role → Handler A) (r : Request) (w : World) (a : A)
    → (require_streamer now next r w).0 ≡ passed a
    → (same_site r ≡ true)
      × ((id : Text) × (st : Streamer) × (role : Role) × (r.sid_cookie ≡ some id)
          × ((get_valid_auth_session now id w).0 ≡ ok (st, role))
          × (require_streamer now next r w ≡ next st role (get_valid_auth_session now id w).1))
unfolding require_streamer streamer_gate
require_streamer-passes now next r w a h = elim (Bool-cases (same_site r)) [
  | inr cross ↦ ground arith
  | inl site ↦
      let gate : (streamer_gate next (authenticate now r w).0 (authenticate now r w).1).0
          ≡ passed a =
        rw site at h in
      let (st, role, who) =
        streamer_gate_inv next (authenticate now r w).0 (authenticate now r w).1 a gate in
      let (id, at, valid, same_world) = authenticate_inv now r w (st, role) who in
      (site, (id, st, role, at, valid, ground arith))
]

owner_gate_inv :
    {A : Type 0} (next : Streamer → Handler A) (st : Streamer) (role : Role) (w : World) (a : A)
    → (owner_gate next st role w).0 ≡ passed a
    → role ≡ owner
unfolding owner_gate
owner_gate_inv next st owner w a h = refl
owner_gate_inv next st moderator w a h = ground arith

-- The handler behind `RequireOwner` runs only for a request that the site check lets through, which is one
-- with the method GET, HEAD or OPTIONS, or one whose Sec-Fetch-Site header is absent or empty, `none`,
-- `same-origin` or `same-site` in any case, and that carries an owner's session that the store accepts: no
-- moderator reaches it, and nor does a request with another method that the browser marks as cross-site.
pub require_owner-passes :
    {A : Type 0} (now : ℕ) (next : Streamer → Handler A) (r : Request) (w : World) (a : A)
    → (require_owner now next r w).0 ≡ passed a
    → (IsReading r.method ⊎ IsOwnSite (to_lower r.sec_fetch_site))
      × ((id : Text) × (st : Streamer) × (r.sid_cookie ≡ some id)
          × ((get_valid_auth_session now id w).0 ≡ ok (st, owner))
          × (require_owner now next r w ≡ next st (get_valid_auth_session now id w).1))
unfolding require_owner owner_gate
require_owner-passes now next r w a h =
    let (site, (id, st, role, at, valid, runs)) =
      require_streamer-passes now (owner_gate next) r w a h in
    let owned : role ≡ owner =
      owner_gate_inv next st role (get_valid_auth_session now id w).1 a
        (ap (λ g. g.0) (sym runs) ∙ h) in
    (same_site_inv r site, (id, st, at, rw owned at valid, rw owned at runs))

-- A handler that answers whom it was called for.
abbrev pub whoami : Streamer → Role → Handler (Streamer × Role)
whoami st role w = (passed (st, role), w)

-- Behind a revocation of a streamer's moderators that succeeded, no request reaches a handler behind
-- `RequireStreamer` as a moderator of that streamer, whichever calls of the database fail.
pub revoked-locked_out :
    (streamer_id : Text) (w w' : World) (now : ℕ) (r : Request) (st : Streamer)
    → w.saved ≡ none
    → (revoke_moderator_access streamer_id w).0 ≡ ok tt
    → w'.db ≡ (revoke_moderator_access streamer_id w).1.db
    → (require_streamer now whoami r w').0 ≡ passed (st, moderator)
    → st.id ≢ streamer_id
revoked-locked_out streamer_id w w' now r st idle done later h =
    let (site, (id, st', role, at, valid, runs)) =
      require_streamer-passes now whoami r w' (st, moderator) h in
    let me : (st' ≡ st) × (role ≡ moderator) = ground arith in
    revoked-moderators streamer_id w w' idle done later now id st (rw me.0 at (rw me.1 at valid))
