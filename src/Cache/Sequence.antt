-- ===== src/Cache/Sequence.antt =====
-- The sequence numbers of the broadcasts: `next_sequence` and the two send helpers.
pub mod Writes
use minerva_server.Std.Lists.{length-append, append_nil, append_assoc}
use minerva_server.Cache.Inner.{Inner, next_sequence}
use minerva_server.Cache.Writes.{
  StateCache, GroupEvent, SimulationEvent, send_group_event, send_simulation_event,
}
use minerva_server.Proto.Groups.{SubscribeGroupUpdatesResponse}
use minerva_server.Proto.Simulation.{SimulationStateUpdate}
use minerva_server.Cache.Passage.{Passage}
use minerva_server.Prelude.{
  Option, ℕ, ◌+◌, ◌%◌, ◌^◌, ◌≤◌, ◌<◌, ◌≡◌, refl, sym, ◌∙◌, ap, List, [], ◌∷◌, ◌++◌, length, arith,
}

-- How many messages were ever sent.
abbrev pub total : StateCache → ℕ
total c = length c.group_updates + length c.simulation_updates

abbrev pub IsNumbered : StateCache → Type 0
IsNumbered c = c.inner.sequence ≡ total c

abbrev pub group_number : GroupEvent → ℕ
group_number e = e.sequence

abbrev pub simulation_number : SimulationEvent → ℕ
simulation_number e = e.sequence

module _ {E : Type 0} (number : E → ℕ) where
  -- All the events are numbered above `low`, up to `high`.
  abbrev pub Between : ℕ → ℕ → List E → Type 0
  Between low high [] = Unit
  Between low high (e ∷ es) = (low < number e) × (number e ≤ high) × Between low high es

  pub Between-append :
      (low mid high : ℕ) (xs ys : List E)
      → low ≤ mid
      → mid ≤ high
      → Between low mid xs
      → Between mid high ys
      → Between low high (xs ++ ys)
  Between-append low mid high [] [] l h a b = tt
  Between-append low mid high [] (y ∷ ys) l h a b =
      (omega (arith, b.0), b.1, Between-append low mid high [] ys l h tt b.2)
  Between-append low mid high (x ∷ xs) ys l h a b =
      (a.0, omega (arith, a.1), Between-append low mid high xs ys l h a.2 b)

  pub Between-suffix :
      (low high : ℕ) (xs ys : List E) → Between low high (xs ++ ys) → Between low high ys
  Between-suffix low high [] ys b = b
  Between-suffix low high (x ∷ xs) ys b = Between-suffix low high xs ys b.2

-- The simulation state that the last of the messages carries, if there is any.
abbrev pub latest :
    Option SimulationStateUpdate → List SimulationEvent → Option SimulationStateUpdate
latest state [] = state
latest state (e ∷ es) = latest e.response.state es

pub latest-append :
    (state : Option SimulationStateUpdate) (xs ys : List SimulationEvent)
    → latest state (xs ++ ys) ≡ latest (latest state xs) ys
latest-append state [] ys = refl
latest-append state (x ∷ xs) ys = latest-append x.response.state xs ys

-- What a part of a write does to the two logs, as long as the count fits a `u64`.
pub record Follows (c d : StateCache) : Type 0 where
  pub news : List GroupEvent
  pub log : d.group_updates ≡ c.group_updates ++ news
  pub simulation_news : List SimulationEvent
  pub simulation_log : d.simulation_updates ≡ c.simulation_updates ++ simulation_news
  pub shows : d.inner.simulation_state ≡ latest c.inner.simulation_state simulation_news
  pub grows : total c ≤ total d
  pub numbered :
      IsNumbered c
      → total d < 2 ^ 64
      → IsNumbered d
        × Between group_number (total c) (total d) news
        × Between simulation_number (total c) (total d) simulation_news

-- A change of the tables sends nothing.
pub Follows-tables :
    (c : StateCache) (i : Inner)
    → i.sequence ≡ c.inner.sequence
    → i.simulation_state ≡ c.inner.simulation_state
    → Follows c (record c { inner = i })
Follows-tables c i e state = record {
  news = [];
  log = sym (append_nil c.group_updates);
  simulation_news = [];
  simulation_log = sym (append_nil c.simulation_updates);
  shows = state;
  grows = omega arith;
  numbered = λ n b. (e ∙ n, tt, tt);
}

pub Follows-trans : (c d e : StateCache) → Follows c d → Follows d e → Follows c e
Follows-trans c d e f g = record {
  news = f.news ++ g.news;
  log = g.log ∙ ap (λ l. l ++ g.news) f.log ∙ append_assoc c.group_updates f.news g.news;
  simulation_news = f.simulation_news ++ g.simulation_news;
  simulation_log =
      g.simulation_log
      ∙ ap (λ l. l ++ g.simulation_news) f.simulation_log
      ∙ append_assoc c.simulation_updates f.simulation_news g.simulation_news;
  shows =
      g.shows
      ∙ ap (λ s. latest s g.simulation_news) f.shows
      ∙ sym (latest-append c.inner.simulation_state f.simulation_news g.simulation_news);
  grows = omega (arith, f.grows, g.grows);
  numbered = λ n b.
      let m = f.numbered n (omega (arith, g.grows)) in
      let k = g.numbered m.0 b in
      (
        k.0,
        Between-append group_number (total c) (total d) (total e) f.news g.news f.grows g.grows m.1
            k.1,
        Between-append simulation_number (total c) (total d) (total e) f.simulation_news
            g.simulation_news f.grows g.grows m.2 k.2,
      );
}

pub send_group-Follows :
    (c : StateCache) (response : SubscribeGroupUpdatesResponse)
    → Follows c (send_group_event c response)
unfolding send_group_event next_sequence
send_group-Follows c response =
    let n = (c.inner.sequence + 1) % 2 ^ 64 in
    let e : GroupEvent = record { sequence = n; response = response } in
    record {
      news = e ∷ [];
      log = refl;
      simulation_news = [];
      simulation_log = sym (append_nil c.simulation_updates);
      shows = refl;
      grows = omega (arith, length-append c.group_updates (e ∷ []));
      numbered = λ k b. (
        omega (arith, length-append c.group_updates (e ∷ [])),
        (
          omega (arith, length-append c.group_updates (e ∷ [])),
          omega (arith, length-append c.group_updates (e ∷ [])),
          tt,
        ),
        tt,
      );
    }

-- A simulation state is stored and sent.
pub shows_state : StateCache → Option SimulationStateUpdate → StateCache
shows_state c state =
    send_simulation_event (record c { inner = record c.inner { simulation_state = state } })
      (record { state = state })

pub shows_state-Follows :
    (c : StateCache) (state : Option SimulationStateUpdate) → Follows c (shows_state c state)
unfolding shows_state send_simulation_event next_sequence
shows_state-Follows c state =
    let n = (c.inner.sequence + 1) % 2 ^ 64 in
    let e : SimulationEvent = record { sequence = n; response = record { state = state } } in
    record {
      news = [];
      log = sym (append_nil c.group_updates);
      simulation_news = e ∷ [];
      simulation_log = refl;
      shows = refl;
      grows = omega (arith, length-append c.simulation_updates (e ∷ []));
      numbered = λ k b. (
        omega (arith, length-append c.simulation_updates (e ∷ [])),
        tt,
        (
          omega (arith, length-append c.simulation_updates (e ∷ [])),
          omega (arith, length-append c.simulation_updates (e ∷ [])),
          tt,
        ),
      );
    }

-- For the writes to units and groups.
pub Follows-Passage : Passage (λ n c d. Follows c d)
Follows-Passage = record {
  tables = λ c i u. Follows-tables c i u.0 u.2;
  sends = send_group-Follows;
  joins = λ m n c d e f g. Follows-trans c d e f g;
  loosens = λ m n c d h f. f;
}
