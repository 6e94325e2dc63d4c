-- ===== src/Queue/Playlist/Runs.antt =====
-- Runs of the queue against the playlist.
use media_share.Prelude.{
  ℕ, zero, suc, ◌≡◌, refl, sym, ap, ◌∙◌, Option, none, some, List, [], ◌∷◌, Text,
}
use media_share.Queue.{Item, Manager, new_manager}
use media_share.Queue.Invariant.{IsValid, step-IsValid, new_manager-IsValid}
use media_share.Queue.Ops.{Op, step, run}
use media_share.Queue.Playlist.{
  Playlist, bares, playing_first, playlist, drop_head, spec, spec_run, empty_playlist, skips,
  get_elem?, bare_option,
}
use media_share.Queue.Playlist.Methods.{step-spec}

run-spec_from :
    (ops : List Op) (m : Manager) → IsValid m → playlist (run ops m) ≡ spec_run ops (playlist m)
unfolding run spec_run
run-spec_from [] m v = refl
run-spec_from (op ∷ ops) m v =
    run-spec_from ops (step op m).manager (step-IsValid op m v)
    ∙ ap (spec_run ops) (step-spec op m v)

-- Whatever is called on a new queue, its playlist is what the specification makes of the same calls
-- from the empty playlist.
pub run-spec :
    (fn : Option Text) (ops : List Op)
    → playlist (run ops (new_manager fn)) ≡ spec_run ops empty_playlist
run-spec fn ops =
    run-spec_from ops (new_manager fn) (new_manager-IsValid fn)
    ∙ ap (spec_run ops) (unfold new_manager in refl)

line-head :
    (o : Option Item) (q : List Item)
    → (o ≡ none → q ≡ [])
    → get_elem? (bares (playing_first o q)) 0 ≡ bare_option o
line-head none [] idle = refl
line-head none (x ∷ q) idle = cc (idle refl)
line-head (some it) q idle = refl

get_elem?-drop_head :
    (items : List Item) (n : ℕ) → get_elem? (drop_head items) n ≡ get_elem? items (suc n)
get_elem?-drop_head [] n = refl
get_elem?-drop_head (it ∷ items) n = refl

-- An item that stands n places behind the head of the line of a valid queue plays after n skips, and
-- the player is idle then only if the line was no longer than n.
pub plays_after_skips :
    (n : ℕ) (m : Manager)
    → IsValid m
    → bare_option (run (skips n) m).now_playing ≡ get_elem? (playlist m).line n
unfolding run
plays_after_skips zero m v = sym (line-head m.now_playing m.queue v.never_idle)
plays_after_skips (suc n) m v =
    plays_after_skips n (step Op.skip m).manager (step-IsValid Op.skip m v)
    ∙ ap (λ (l : Playlist). get_elem? l.line n) (step-spec Op.skip m v)
    ∙ (unfold spec in get_elem?-drop_head (playlist m).line n)
