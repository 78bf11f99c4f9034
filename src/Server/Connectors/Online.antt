-- ===== src/Server/Connectors/Online.antt =====
-- Which connectors are online (crates/server/src/connectors.rs): the newest registration counts.
use remotehub.Base.{
  ◌-◌, ltb, Bool, true, false, ◌&&◌, not, Option, none, some, List, [], ◌∷◌, if◌then◌else◌, ◌=?◌,
  all, arith, ◌≡◌, refl, ap, ◌∙◌, nat_eq,
}
use remotehub.Base.Map.{get, get-insert, get-remove, get-contains_key, contains_key_of_none, remove}
use remotehub.Base.Text.{Text}
use remotehub.Connector.Access.Defs.{Time, Uuid}
use remotehub.Connector.Agent.Report.{AccessState}
use remotehub.Server.Connectors.Defs.{
  Channel, Requester, Registration, register, drop_registration, is_online, count, drop_carrying,
  report, access, report_stale,
}
use remotehub.Server.Connectors.Asks.{ask_stream, open_stream, user_of, device_of}
use remotehub.Server.Connectors.Steps.{
  Step, registers, unregisters, counts, uncounts, reports, World, step, run,
}
use remotehub.Server.Connectors.Kept.{step-Kept}

-- A step that neither registers the connector anew nor drops that registration.
abbrev pub spares : Registration → Step → Bool
spares r (registers c) = not (c =? r.connector)
spares r (unregisters q) = not ((q.connector =? r.connector) && (q.generation =? r.generation))
spares r other = true

-- A step that reports nothing for the connector.
abbrev pub is_silent : Uuid → Step → Bool
is_silent c (reports d state now) = not (d =? c)
is_silent c other = true

-- The connector's registration, newest, is the one that is held.
abbrev pub Held : Registration → Channel → World → Type 0
Held r sender w = get w.connectors.online r.connector ≡ some (r.generation, sender)

step-Held :
    (r : Registration) (sender : Channel) (w : World) (s : Step)
    → Held r sender w
    → spares r s ≡ true
    → Held r sender (step w s)
step-Held r sender w (registers c) h n =
    unfold step register in
    ground (arith, get-insert w.connectors.online c r.connector (w.connectors.generation, w.next))
step-Held r sender w (unregisters q) h n =
    unfold step drop_registration in
    ground (arith, h, n, get-remove w.connectors.online q.connector r.connector)
step-Held r sender w (reports c state now) h n = unfold step report in h
step-Held r sender w (counts c) h n = unfold step count in h
step-Held r sender w (uncounts c) h n = unfold step drop_carrying in ground (arith, h)
step-Held r sender w other h n = ap (λ m. get m r.connector) (step-Kept w other refl).0 ∙ h

run-Held :
    (r : Registration) (sender : Channel) (w : World) (ss : List Step)
    → Held r sender w
    → all (spares r) ss ≡ true
    → Held r sender (run w ss)
unfolding run
run-Held r sender w [] h n = h
run-Held r sender w (s ∷ ss) h n =
    run-Held r sender (step w s) ss (step-Held r sender w s h (ground arith)) (ground arith)

registers-Held :
    (w : World) (c : Uuid) → Held (register w.connectors c w.next).0 w.next (step w (registers c))
unfolding step register
registers-Held w c =
    ground (arith, get-insert w.connectors.online c c (w.connectors.generation, w.next))

Held-online :
    (r : Registration) (sender : Channel) (w : World)
    → Held r sender w
    → (is_online w.connectors r.connector ≡ true)
      × (is_online (drop_registration r w.connectors) r.connector ≡ false)
unfolding is_online drop_registration
Held-online r sender w h =
    let m = w.connectors.online in
    let gone : get (remove m r.connector) r.connector ≡ none =
      get-remove m r.connector r.connector
      ∙ ground (arith, nat_eq.test_iff r.connector r.connector) in
    (
      get-contains_key m r.connector h,
      rw (h) (ground (arith, contains_key_of_none (remove m r.connector) r.connector gone)),
    )

Held-asked :
    (r : Registration) (sender : Channel) (w : World) (target : Text) (whom : Option Requester)
    (id : Uuid) (reply : Channel)
    → Held r sender w
    → (ask_stream w.connectors r.connector target whom id reply).0
      ≡ some (sender, open_stream id target (user_of whom) (device_of whom))
unfolding ask_stream
Held-asked r sender w target whom id reply h = rw h refl

-- From its registration on, whatever else happens but a newer registration of the same connector and
-- the end of this one, a connector is online and asked for streams on this registration's channel; and
-- where this registration then ends, it is offline.
pub registered_online :
    (w : World) (c : Uuid) (ss : List Step) (target : Text) (whom : Option Requester) (id : Uuid)
    (reply : Channel)
    → let r = (register w.connectors c w.next).0 in
      all (spares r) ss ≡ true
      → let after = (run w (registers c ∷ ss)).connectors in
        (is_online after c ≡ true)
        × ((ask_stream after c target whom id reply).0
            ≡ some (w.next, open_stream id target (user_of whom) (device_of whom)))
        × (is_online (drop_registration r after) c ≡ false)
unfolding run register
registered_online w c ss target whom id reply n =
    let r = (register w.connectors c w.next).0 in
    let held = run-Held r w.next (step w (registers c)) ss (registers-Held w c) n in
    let last = run (step w (registers c)) ss in
    let (up, down) = Held-online r w.next last held in
    (up, Held-asked r w.next last target whom id reply held, down)

step-reported :
    (c : Uuid) (w : World) (s : Step)
    → is_silent c s ≡ true
    → get (step w s).connectors.access c ≡ get w.connectors.access c
step-reported c w (registers d) n = unfold step register in refl
step-reported c w (unregisters q) n = unfold step drop_registration in ground arith
step-reported c w (reports d state now) n =
    unfold step report in ground (arith, get-insert w.connectors.access d c (state, now))
step-reported c w (counts d) n = unfold step count in refl
step-reported c w (uncounts d) n = unfold step drop_carrying in ground arith
step-reported c w other n = ap (λ m. get m c) (step-Kept w other refl).1

run-reported :
    (c : Uuid) (w : World) (ss : List Step)
    → all (is_silent c) ss ≡ true
    → get (run w ss).connectors.access c ≡ get w.connectors.access c
unfolding run
run-reported c w [] n = refl
run-reported c w (s ∷ ss) n =
    run-reported c (step w s) ss (ground arith) ∙ step-reported c w s (ground arith)

reported_last :
    (w : World) (c : Uuid) (state : AccessState) (at : Time)
    → get (step w (reports c state at)).connectors.access c ≡ some (state, at)
unfolding step report
reported_last w c state at =
    ground (arith, get-insert w.connectors.access c c (state, at), nat_eq.test_iff c c)

-- What a connector reported is what remotehub says of it, and compares its next report with, for 180
-- seconds, whatever else happens but a newer report of the same connector; after that, nothing is.
pub reported_access :
    (w : World) (c : Uuid) (state next : AccessState) (at now : Time) (ss : List Step)
    → all (is_silent c) ss ≡ true
    → let after = (run w (reports c state at ∷ ss)).connectors in
      (access after c now ≡ (if ltb (now - at) report_stale then some state else none))
      × ((report after c next now).0 ≡ access after c now)
unfolding run access report
reported_access w c state next at now ss n =
    (rw (run-reported c (step w (reports c state at)) ss n, reported_last w c state at) refl, refl)
