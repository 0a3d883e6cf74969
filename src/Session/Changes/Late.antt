-- ===== src/Session/Changes/Late.antt =====
-- Writes of session.rs that insert no tombstoned id, among writes that may.
use kanai.Base.{ℕ, List, [], refl, contains}
use kanai.Session.State.{SessionBroker}
use kanai.Session.Changes.{
  Change, registers, advances, rolls_back, activates, remembers, forgets, owns, inserts, removes,
  drains, deactivates, tombstones, Changes, done, more,
}

Change-late : (late : List ℕ) (b c : SessionBroker) → Change [] b c → Change late b c
unfolding contains
Change-late late b _ (registers requests) = registers requests
Change-late late b _ (advances a next) = advances a next
Change-late late b _ (rolls_back a expected attempted) = rolls_back a expected attempted
Change-late late b _ (activates a on) = activates a on
Change-late late b _ (remembers a state k) = remembers a state k
Change-late late b _ (forgets a) = forgets a
Change-late late b _ (owns a owner k) = owns a owner k
Change-late late b _ (inserts id e may new room empty) = inserts id e (λ k. may refl) new room empty
Change-late late b _ (removes id) = removes id
Change-late late b _ drains = drains
Change-late late b _ (deactivates entries) = deactivates entries
Change-late late b _ (tombstones ids) = tombstones ids

pub Changes-late : (late : List ℕ) (b c : SessionBroker) → Changes [] b c → Changes late b c
Changes-late late b _ done = done
Changes-late late b c (more {m} p s) = more (Changes-late late b m p) (Change-late late m c s)
