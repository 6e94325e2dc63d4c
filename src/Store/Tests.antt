-- ===== src/Store/Tests.antt =====
-- The store at work: a streamer, a viewer with a balance, and two sessions.
use media_share.Prelude.{
  ℕ, ◌+◌, ◌≤◌, ◌≡◌, ◌≢◌, ◌⊎◌, refl, Bool, true, false, ◌&&◌, Option, none, some, List, [], ◌∷◌,
  Text, codes, same, same_iff, exists, arith, if◌then◌else◌,
}
use media_share.Prelude.Int.{ℤ, pos, negsuc, ◌-ℤ◌, ◌≤ℤ◌, ◌<ℤ◌}
use media_share.Random.{Rng, rand_token}
use media_share.Store.Db.{owner, Streamer, Viewer, Reason, Db, Result, ok, World, calm, empty_db}
use media_share.Store.Credits.{Cheer, credit_bits, select_credits, spend_credits}
use media_share.Store.Db.Transactions.{AllOrNothing}
use media_share.Store.Credits.Atomic.{cheer_effect, credit_bits_atomic}
use media_share.Store.Credits.Balances.{credits_in}
use media_share.Store.Credits.Accounts.{CreditOp, IsSettled, perform_all, perform_all-IsSettled}
use media_share.Store.Credits.Replay.{IsDeduplicated, perform_all-IsDeduplicated}
use media_share.Store.Credits.Spending.{spend_credits_exact}

abbrev bytes : ℕ → Rng
bytes b _ = b

abbrev ann : Text
ann = codes "ann"

abbrev vic : Text
vic = codes "vic"

abbrev ann_row : Streamer
ann_row = record {
  id = ann;
  login = ann;
  display_name = ann;
  player_key = codes "key";
  created_at = 1;
  last_login_at = 1;
}

abbrev pub vic_row : Viewer
vic_row = record { id = vic; login = vic; display_name = vic; created_at = 1; last_seen_at = 1 }

-- vic has 100 credits in ann's channel.
abbrev pub shop : Db
shop = record empty_db {
  streamers = ann_row ∷ [];
  viewers = vic_row ∷ [];
  auth_sessions =
      record { id = codes "old"; streamer_id = ann; role = owner; created_at = 0; expires_at = 9 }
      ∷ [];
  credit_balances =
      record { viewer_id = vic; streamer_id = ann; credits = pos 100; updated_at = 1 } ∷ [];
  credit_ledger =
      record {
        id = codes "l";
        viewer_id = vic;
        streamer_id = ann;
        delta = pos 100;
        reason = Reason.dev_grant;
        ref = [];
        created_at = 1;
      }
      ∷ [];
}

pub shop-IsSettled : IsSettled (calm shop)
unfolding exists select_credits media_share.Prelude.select media_share.Prelude.Int.◌+ℤ◌
shop-IsSettled = record {
  audited = record {
    unique = (refl, tt);
    non_negative = (omega arith, tt);
    balanced = λ v s. ground (arith, same_iff vic v, same_iff ann s);
  };
  idle = refl;
}

shop-IsDeduplicated : IsDeduplicated (calm shop)
unfolding media_share.Prelude.count_where
shop-IsDeduplicated = record {
  messages = record { once = λ msg. omega arith; in_step = λ msg. refl };
  idle = refl;
}

abbrev pub cheered : Cheer
cheered = record {
  msg_id = codes "m1";
  viewer_id = vic;
  login = vic;
  display_name = vic;
  streamer_id = ann;
  bits = pos 50;
}

abbrev ops : List CreditOp
ops =
    CreditOp.cheer (bytes 1) 5 5 cheered
    ∷ CreditOp.cheer (bytes 2) 6 6 cheered
    ∷ CreditOp.spend (bytes 3) 7 7 vic ann (pos 120) (codes "item")
    ∷ []

perform_all-IsSettled_example : IsSettled (perform_all ops (calm shop))
perform_all-IsSettled_example = perform_all-IsSettled ops (calm shop) shop-IsSettled

perform_all-IsDeduplicated_example : IsDeduplicated (perform_all ops (calm shop))
perform_all-IsDeduplicated_example = perform_all-IsDeduplicated ops (calm shop) shop-IsDeduplicated

credit_bits_atomic_example :
    AllOrNothing
      (cheer_effect (bytes 1) 5 5 cheered)
      (credit_bits (bytes 1) 5 5 cheered (calm shop)).0
      shop
      (credit_bits (bytes 1) 5 5 cheered (calm shop)).1.db
    × ((credit_bits (bytes 1) 5 5 cheered (calm shop)).1.saved ≡ none)
credit_bits_atomic_example = credit_bits_atomic (bytes 1) 5 5 cheered (calm shop) refl

abbrev spending : ℤ → Result (ℤ × Bool) × World
spending cost = spend_credits (bytes 3) 7 7 vic ann cost (codes "item") (calm shop)

paid : (spending (pos 30)).0 ≡ ok (pos 70, true)
unfolding spend_credits media_share.Store.Credits.deduct media_share.Prelude.count_where same
    media_share.Store.Credits.append_ledger exists media_share.Prelude.select rand_token
    select_credits media_share.Prelude.update ◌-ℤ◌
paid = refl

spend_credits_exact_example :
    (pos 30 ≤ℤ credits_in vic ann shop)
    × (pos 70 ≡ credits_in vic ann shop -ℤ pos 30)
    × ((v' s' : Text)
        → credits_in v' s' (spending (pos 30)).1.db ≡ (
            if same vic v' && same ann s'
            then credits_in v' s' shop -ℤ pos 30
            else credits_in v' s' shop))
spend_credits_exact_example =
    spend_credits_exact (bytes 3) 7 7 vic ann (pos 30) (codes "item") (calm shop) (pos 70)
      shop-IsSettled paid

refused : (spending (pos 101)).0 ≡ ok (pos 100, false)
unfolding spend_credits media_share.Store.Credits.deduct media_share.Prelude.count_where same
    select_credits media_share.Prelude.select media_share.Prelude.update
refused = refl

no_balance : select_credits (codes "zoe") ann shop ≡ none
unfolding select_credits media_share.Prelude.select same
no_balance = refl
