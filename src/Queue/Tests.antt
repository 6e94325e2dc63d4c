-- ===== src/Queue/Tests.antt =====
-- The queue at work on a few clips.
use media_share.Prelude.{◌+◌, ◌≡◌, refl, Bool, true, Option, some, List, [], ◌∷◌, Text, codes, same}
use media_share.Prelude.Int.{pos}
use media_share.Queue.{Item, ItemType, Status, Manager, new_manager}
use media_share.Queue.Ops.{Op, step, run}
use media_share.Queue.Invariant.{IsValid, run-IsValid}
use media_share.Queue.Conservation.{added, count, count_held, step-conserves}
use media_share.Queue.Playlist.{bare_option, empty_playlist, get_elem?, playlist, skips, spec_run}
use media_share.Queue.Playlist.Runs.{plays_after_skips, run-spec}
use media_share.Queue.Publish.{Publishes, step-Publishes}

abbrev clip : Text → Item
clip id = record {
  id = id;
  kind = ItemType.youtube;
  title = codes "clip";
  submitter_name = codes "viewer";
  status = Status.pending;
  submitted_at = 0;
  youtube_id = codes "dQw4w9WgXcQ";
  start_seconds = pos 0;
  media_url = [];
  duration_seconds = 10;
}

abbrev ops : List Op
ops =
    Op.submit (codes "x") 5 (clip (codes "a"))
    ∷ Op.submit (codes "x") 6 (clip (codes "b"))
    ∷ Op.approve (codes "a")
    ∷ Op.set_bypass true
    ∷ Op.submit (codes "c") 7 (clip [])
    ∷ Op.approve (codes "b")
    ∷ []

abbrev room : Option Text
room = some (codes "room")

abbrev queued : Manager
queued = run ops (new_manager room)

run-IsValid_example : IsValid (run ops (new_manager room))
run-IsValid_example = run-IsValid room ops

run-spec_example : playlist (run ops (new_manager room)) ≡ spec_run ops empty_playlist
run-spec_example = run-spec room ops

plays_after_skips_example :
    bare_option (run (skips 1) queued).now_playing ≡ get_elem? (playlist queued).line 1
plays_after_skips_example = plays_after_skips 1 queued (run-IsValid room ops)

abbrev named_b : Item → Bool
named_b it = same it.id (codes "b")

step-conserves_example :
    count_held named_b (step (Op.remove (codes "b")) queued).manager
      + count named_b (step (Op.remove (codes "b")) queued).retired
    ≡ count_held named_b queued + count named_b (added (Op.remove (codes "b")))
step-conserves_example = step-conserves named_b (λ s it. refl) (Op.remove (codes "b")) queued

step-Publishes_example : Publishes queued (step Op.skip queued)
step-Publishes_example = step-Publishes Op.skip queued
