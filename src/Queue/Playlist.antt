-- ===== src/Queue/Playlist.antt =====
-- What the queue promises: a list of waiting items, and one line of approved items whose head plays.
-- The methods refine these operations; the statuses are forgotten.
pub mod Methods
pub mod Runs
use media_share.Prelude.{
  ℕ, zero, suc, Bool, true, false, ◌||◌, Option, none, some, List, [], ◌∷◌, ◌++◌, Text,
  if◌then◌else◌, same, is_empty,
}
use media_share.Queue.{Item, Status, Manager, stamped}
use media_share.Queue.Ops.{Op, run}

pub record Playlist : Type 0 where
  pub waiting : List Item
  pub line : List Item
  pub paused : Bool
  pub bypass : Bool

-- An item without its status.
abbrev pub bare : Item → Item
bare it = record it { status = Status.pending }

abbrev pub bares : List Item → List Item
bares [] = []
bares (it ∷ items) = bare it ∷ bares items

abbrev pub playing_first : Option Item → List Item → List Item
playing_first none items = items
playing_first (some it) items = it ∷ items

-- The playlist that a manager stands for.
abbrev pub playlist : Manager → Playlist
playlist m = record {
  waiting = bares m.pending;
  line = bares (playing_first m.now_playing m.queue);
  paused = m.paused;
  bypass = m.bypass;
}

abbrev pub without : Text → List Item → List Item
without id [] = []
without id (it ∷ items) = let rest = without id items in if same it.id id then items else it ∷ rest

abbrev pub first_with : Text → List Item → List Item
first_with id [] = []
first_with id (it ∷ items) =
    let rest = first_with id items in if same it.id id then it ∷ [] else rest

abbrev pub drop_head : List Item → List Item
drop_head [] = []
drop_head (_ ∷ items) = items

-- The head of the line, and what a function makes of the rest.
abbrev pub keep_head : (List Item → List Item) → List Item → List Item
keep_head f [] = []
keep_head f (it ∷ items) = it ∷ f items

abbrev pub plays : Text → List Item → Bool
plays id [] = false
plays id (it ∷ _) = is_empty id || same it.id id

-- The specification of each method.
pub spec : Op → Playlist → Playlist
unfolding stamped
spec (Op.submit fresh now it) l =
    let new : Item = bare (stamped fresh now it) in
    if l.bypass
    then record l { line = l.line ++ new ∷ [] }
    else record l { waiting = l.waiting ++ new ∷ [] }
spec (Op.approve id) l = record l {
  waiting = without id l.waiting;
  line = l.line ++ first_with id l.waiting;
}
spec (Op.reject id) l = record l { waiting = without id l.waiting }
spec (Op.remove id) l = record l { line = keep_head (without id) l.line }
spec (Op.ended id) l = record l {
  line = if plays id l.line then drop_head l.line else l.line;
  paused = false;
}
spec Op.skip l = record l { line = drop_head l.line; paused = false }
spec (Op.set_paused p) l = record l { paused = p }
spec (Op.clear true) l = record l { waiting = []; line = []; paused = false }
spec (Op.clear false) l = record l { line = keep_head (λ _. []) l.line }
spec (Op.set_bypass b) l = record l { bypass = b }

-- The specification of a run.
pub spec_run : List Op → Playlist → Playlist
spec_run [] l = l
spec_run (op ∷ ops) l = spec_run ops (spec op l)

abbrev pub empty_playlist : Playlist
empty_playlist = record { waiting = []; line = []; paused = false; bypass = false }

abbrev pub skips : ℕ → List Op
skips zero = []
skips (suc n) = Op.skip ∷ skips n

abbrev pub get_elem? : List Item → ℕ → Option Item
get_elem? [] n = none
get_elem? (it ∷ items) zero = some it
get_elem? (it ∷ items) (suc n) = get_elem? items n

abbrev pub bare_option : Option Item → Option Item
bare_option none = none
bare_option (some it) = some (bare it)
