-- ===== src/StatsServer/Serving.antt =====
-- Who is answered, and what becomes of the socket's file.
use mavrouter.Prelude.{
  ℕ, zero, suc, refl, sym, ap, inl, inr, Bool, true, false, not, Option, none, some, List, [],
  arith, Bool-cases, ◌+◌, ◌<◌, ◌≡◌, ◌∙◌, ◌↔◌, ◌&&◌, ◌==◌, ◌∷◌, ◌++◌, if◌then◌else◌, nat_eq,
}
use Prim.Native.String.{String}
use mavrouter.Prelude.Text.{Text}
use mavrouter.Config.{RouterError, Result, err, filesystem, network}
use mavrouter.Orchestration.{Name}
use mavrouter.StatsServer.{
  trim, respond, View, Host, Event, cancelled, accepted, heard, accept_failed, Effect, remove_file,
  bind, set_mode, spawn, write_all, answer, mark, serve, run_stats_server, served,
}

-- The file of the socket: none, or one with its mode, if that has been set; or it has been removed
-- after that.
pub data File : Type 0 where
  absent : File
  present : (mode : Option ℕ) → File
  gone : File

abbrev removed : Option ℕ → File
removed none = absent
removed (some mode) = gone

-- Clients can be answered.
abbrev Restricted : File → Type 0
Restricted absent = ⊥
Restricted (present mode) = mode ≡ some 0o660
Restricted gone = Unit

-- A file is removed only if there is one, the socket is bound only if there is none, and a client
-- is accepted, and answered, only when the socket's file could be reached by its owner and group
-- alone.
abbrev pub IsOrderly : File → List Effect → Type 0
IsOrderly file [] = Unit
IsOrderly absent (remove_file ∷ effects) = ⊥
IsOrderly (present mode) (remove_file ∷ effects) = IsOrderly (removed mode) effects
IsOrderly gone (remove_file ∷ effects) = ⊥
IsOrderly absent (bind ∷ effects) = IsOrderly (present none) effects
IsOrderly (present mode) (bind ∷ effects) = ⊥
IsOrderly gone (bind ∷ effects) = ⊥
IsOrderly absent (set_mode new ∷ effects) = ⊥
IsOrderly (present mode) (set_mode new ∷ effects) = IsOrderly (present (some new)) effects
IsOrderly gone (set_mode new ∷ effects) = ⊥
IsOrderly absent (spawn client ∷ effects) = ⊥
IsOrderly (present mode) (spawn client ∷ effects) =
    (mode ≡ some 0o660) × IsOrderly (present mode) effects
IsOrderly gone (spawn client ∷ effects) = ⊥
IsOrderly file (write_all client response ∷ effects) = Restricted file × IsOrderly file effects

abbrev pub file_of : Bool → File
file_of true = present none
file_of false = absent

abbrev pub reply : List (ℕ × Name) → Option Text → View → List Text
reply ep_stats none view = []
reply ep_stats (some []) view = []
reply ep_stats (some (c ∷ s)) view = respond ep_stats view (trim (c ∷ s)) ∷ []

-- What a client gets that has been accepted: the answer to its first read.
abbrev pub replied : List (ℕ × Name) → ℕ → List Event → List Text
replied ep_stats k [] = []
replied ep_stats k (cancelled exists ∷ events) = replied ep_stats k events
replied ep_stats k (accepted ∷ events) = replied ep_stats k events
replied ep_stats k (accept_failed ∷ events) = replied ep_stats k events
replied ep_stats k (heard client read view ∷ events) =
    if k == client then reply ep_stats read view else replied ep_stats k events

-- What the client `k` gets, which has `left` clients before it, if it comes before the
-- cancellation.
abbrev pub answered : List (ℕ × Name) → ℕ → ℕ → List Event → List Text
answered ep_stats k left [] = []
answered ep_stats k left (cancelled exists ∷ events) = []
answered ep_stats k zero (accepted ∷ events) = replied ep_stats k events
answered ep_stats k (suc left) (accepted ∷ events) = answered ep_stats k left events
answered ep_stats k left (accept_failed ∷ events) = answered ep_stats k left events
answered ep_stats k left (heard client read view ∷ events) = answered ep_stats k left events

-- What is written to the client `k`.
abbrev pub responses : ℕ → List Effect → List Text
responses k [] = []
responses k (remove_file ∷ effects) = responses k effects
responses k (bind ∷ effects) = responses k effects
responses k (set_mode mode ∷ effects) = responses k effects
responses k (spawn client ∷ effects) = responses k effects
responses k (write_all client response ∷ effects) =
    if k == client then response ∷ responses k effects else responses k effects

-- The error of the first step that fails, if any does.
abbrev pub failure : String → Host → Option RouterError
failure socket_path host =
    if host.exists && not host.removes
    then some (filesystem socket_path)
    else if not host.binds
    then some (network socket_path)
    else if host.has_metadata && host.sets_permissions
    then none
    else some (filesystem socket_path)

answer-IsOrderly :
    (ep_stats : List (ℕ × Name)) (file : File) (b : Bool) (client : ℕ) (read : Option Text)
    (view : View) (effects : List Effect)
    → Restricted file
    → IsOrderly file effects
    → IsOrderly file (answer ep_stats b client read view ++ effects)
answer-IsOrderly ep_stats file false client read view effects ready rest = rest
answer-IsOrderly ep_stats file true client none view effects ready rest = rest
answer-IsOrderly ep_stats file true client (some []) view effects ready rest = rest
answer-IsOrderly ep_stats file true client (some (c ∷ s)) view effects ready rest = (ready, rest)

-- When the loop has ended, its clients' tasks write at most.
ended-IsOrderly :
    (ep_stats : List (ℕ × Name)) (file : File) (events : List Event) (next : ℕ) (reading : ℕ → Bool)
    → Restricted file
    → IsOrderly file (serve ep_stats false next reading events).0
unfolding serve
ended-IsOrderly ep_stats file [] next reading ready = tt
ended-IsOrderly ep_stats file (cancelled exists ∷ events) next reading ready =
    ended-IsOrderly ep_stats file events next reading ready
ended-IsOrderly ep_stats file (accepted ∷ events) next reading ready =
    ended-IsOrderly ep_stats file events next reading ready
ended-IsOrderly ep_stats file (accept_failed ∷ events) next reading ready =
    ended-IsOrderly ep_stats file events next reading ready
ended-IsOrderly ep_stats file (heard client read view ∷ events) next reading ready =
    answer-IsOrderly ep_stats file (reading client) client read view _ ready
      (ended-IsOrderly ep_stats file events next _ ready)

serve-IsOrderly :
    (ep_stats : List (ℕ × Name)) (events : List Event) (next : ℕ) (reading : ℕ → Bool)
    → IsOrderly (present (some 0o660)) (serve ep_stats true next reading events).0
unfolding serve
serve-IsOrderly ep_stats [] next reading = tt
serve-IsOrderly ep_stats (cancelled true ∷ events) next reading =
    ended-IsOrderly ep_stats gone events next reading tt
serve-IsOrderly ep_stats (cancelled false ∷ events) next reading =
    ended-IsOrderly ep_stats (present (some 0o660)) events next reading refl
serve-IsOrderly ep_stats (accepted ∷ events) next reading =
    (refl, serve-IsOrderly ep_stats events (suc next) _)
serve-IsOrderly ep_stats (accept_failed ∷ events) next reading =
    serve-IsOrderly ep_stats events next reading
serve-IsOrderly ep_stats (heard client read view ∷ events) next reading =
    answer-IsOrderly ep_stats (present (some 0o660)) (reading client) client read view _ refl
      (serve-IsOrderly ep_stats events next _)

nat_same : (k client : ℕ) → (k == client) ≡ true → k ≡ client
nat_same k client h = ground (arith, h)

-- The answer of a task that has ended is not to this client.
silent :
    {k : ℕ} (client : ℕ) (reading : ℕ → Bool)
    → reading k ≡ false
    → (k == client && reading client) ≡ false
silent {k} client reading read = elim (Bool-cases (k == client)) [
  | inl here ↦ rw here (ap reading (sym (nat_same k client here)) ∙ read)
  | inr elsewhere ↦ rw elsewhere refl
]

module _ (ep_stats : List (ℕ × Name)) (k : ℕ) where
  answer-others :
      (b : Bool) (client : ℕ) (read : Option Text) (view : View) (effects : List Effect)
      → (k == client && b) ≡ false
      → responses k (answer ep_stats b client read view ++ effects) ≡ responses k effects
  answer-others false client read view effects h = refl
  answer-others true client none view effects h = refl
  answer-others true client (some []) view effects h = refl
  answer-others true client (some (c ∷ s)) view effects h = ground (arith, h)

  answer-same :
      (client : ℕ) (read : Option Text) (view : View) (effects : List Effect)
      → (k == client) ≡ true
      → responses k effects ≡ []
      → responses k (answer ep_stats true client read view ++ effects) ≡ reply ep_stats read view
  answer-same client none view effects h e = e
  answer-same client (some []) view effects h e = e
  answer-same client (some (c ∷ s)) view effects h e = rw (h, e) refl

  -- A client whose task has ended, or that comes too late, gets nothing more.
  done-responses :
      (listening : Bool) (events : List Event) (next : ℕ) (reading : ℕ → Bool)
      → (listening ≡ true → k < next)
      → reading k ≡ false
      → responses k (serve ep_stats listening next reading events).0 ≡ []
  unfolding serve
  done-responses listening [] next reading late read = refl
  done-responses true (cancelled true ∷ events) next reading late read =
      done-responses false events next reading (λ h. absurd (ground (arith, h))) read
  done-responses true (cancelled false ∷ events) next reading late read =
      done-responses false events next reading (λ h. absurd (ground (arith, h))) read
  done-responses true (accepted ∷ events) next reading late read =
      let before = late refl in
      done-responses true events (suc next) _ (λ h. omega (arith, before))
        (ground (arith, before, read))
  done-responses false (cancelled exists ∷ events) next reading late read =
      done-responses false events next reading late read
  done-responses false (accepted ∷ events) next reading late read =
      done-responses false events next reading late read
  done-responses listening (accept_failed ∷ events) next reading late read =
      done-responses listening events next reading late read
  done-responses listening (heard client text view ∷ events) next reading late read =
      answer-others (reading client) client text view _ (silent client reading read)
      ∙ done-responses listening events next _ late (ground (arith, read))

  -- A client whose task waits gets the answer to its first read.
  waiting-responses :
      (listening : Bool) (events : List Event) (next : ℕ) (reading : ℕ → Bool)
      → k < next
      → reading k ≡ true
      → responses k (serve ep_stats listening next reading events).0 ≡ replied ep_stats k events
  unfolding serve
  waiting-responses listening [] next reading before waits = refl
  waiting-responses true (cancelled true ∷ events) next reading before waits =
      waiting-responses false events next reading before waits
  waiting-responses true (cancelled false ∷ events) next reading before waits =
      waiting-responses false events next reading before waits
  waiting-responses true (accepted ∷ events) next reading before waits =
      waiting-responses true events (suc next) _ (omega (arith, before))
        (ground (arith, before, waits))
  waiting-responses false (cancelled exists ∷ events) next reading before waits =
      waiting-responses false events next reading before waits
  waiting-responses false (accepted ∷ events) next reading before waits =
      waiting-responses false events next reading before waits
  waiting-responses listening (accept_failed ∷ events) next reading before waits =
      waiting-responses listening events next reading before waits
  waiting-responses listening (heard client text view ∷ events) next reading before waits =
      elim (Bool-cases (k == client)) [
        | inl here ↦
            let its : reading client ≡ true = ap reading (sym (nat_same k client here)) ∙ waits in
            rw (here, its)
              (answer-same client text view _ here (
                done-responses listening events next (mark reading client false) (λ h. before)
                  (ground (arith, here))))
        | inr elsewhere ↦ rw elsewhere (
            answer-others (reading client) client text view _ (rw elsewhere refl)
            ∙ waiting-responses listening events next (mark reading client false) before
                (ground (arith, elsewhere, waits)))
      ]

  -- A client that is still to come.
  serve-responses :
      (events : List Event) (next left : ℕ) (reading : ℕ → Bool)
      → next + left ≡ k
      → reading k ≡ false
      → responses k (serve ep_stats true next reading events).0 ≡ answered ep_stats k left events
  unfolding serve
  serve-responses [] next left reading e none_yet = refl
  serve-responses (cancelled true ∷ events) next left reading e none_yet =
      done-responses false events next reading (λ h. absurd (ground (arith, h))) none_yet
  serve-responses (cancelled false ∷ events) next left reading e none_yet =
      done-responses false events next reading (λ h. absurd (ground (arith, h))) none_yet
  serve-responses (accepted ∷ events) next zero reading e none_yet =
      waiting-responses true events (suc next) _ (omega (arith, e)) (ground (arith, e))
  serve-responses (accepted ∷ events) next (suc left) reading e none_yet =
      serve-responses events (suc next) left _ (omega (arith, e)) (ground (arith, e, none_yet))
  serve-responses (accept_failed ∷ events) next left reading e none_yet =
      serve-responses events next left reading e none_yet
  serve-responses (heard client text view ∷ events) next left reading e none_yet =
      answer-others (reading client) client text view _ (silent client reading none_yet)
      ∙ serve-responses events next left _ e (ground (arith, none_yet))

-- What is to be shown of the server, from the file that it finds and the step that fails.
abbrev pub Served :
    List (ℕ × Name)
    → List Event
    → File
    → List Effect × Option (Result (Unit {0}))
    → Option RouterError
    → Type 0
Served ep_stats events file out failure_of =
    IsOrderly file out.0
    × ((e : RouterError) → (out.1 ≡ some (err e)) ↔ (failure_of ≡ some e))
    × ((k : ℕ)
        → responses k out.0 ≡ elim failure_of [ none ↦ answered ep_stats k k events | some e ↦ [] ])

abbrev failed : RouterError → Option (Result (Unit {0}))
failed e = some (err e)

same_error : (f e : RouterError) → (failed f ≡ failed e) ↔ (some f ≡ some e)
same_error f e = (λ h. ground (arith, h), λ h. ground (arith, h))

no_error :
    (effects : List Effect) (ended : Bool) (e : RouterError)
    → ((served (effects, ended)).1 ≡ failed e) ↔ (none ≡ some e)
no_error effects true e = (λ h. absurd (ground (arith, h)), λ h. absurd (ground (arith, h)))
no_error effects false e = (λ h. absurd (ground (arith, h)), λ h. absurd (ground (arith, h)))

module _ (socket_path : String) (ep_stats : List (ℕ × Name)) (events : List Event) where
  looped-Served :
      (exists : Bool) (removes : Bool)
      → (exists && not removes) ≡ false
      → let host : Host = record {
        exists = exists;
        removes = removes;
        binds = true;
        has_metadata = true;
        sets_permissions = true;
      } in
        Served ep_stats events
          (file_of exists)
          (run_stats_server socket_path ep_stats host events)
          none
  unfolding run_stats_server
  looped-Served true true h = (
    serve-IsOrderly ep_stats events 0 (λ client. false),
    no_error [] _,
    λ k. serve-responses ep_stats k events 0 k (λ client. false) (omega arith) refl,
  )
  looped-Served true false h = absurd (ground (arith, h))
  looped-Served false removes h = (
    serve-IsOrderly ep_stats events 0 (λ client. false),
    no_error [] _,
    λ k. serve-responses ep_stats k events 0 k (λ client. false) (omega arith) refl,
  )

  run-Served :
      (exists removes binds has_metadata sets_permissions : Bool)
      → let host : Host = record {
        exists = exists;
        removes = removes;
        binds = binds;
        has_metadata = has_metadata;
        sets_permissions = sets_permissions;
      } in
        Served ep_stats events
          (file_of exists)
          (run_stats_server socket_path ep_stats host events)
          (failure socket_path host)
  unfolding run_stats_server
  run-Served true false binds has_metadata sets_permissions = (tt, same_error _, λ k. refl)
  run-Served true true false has_metadata sets_permissions = (tt, same_error _, λ k. refl)
  run-Served true true true false sets_permissions = (tt, same_error _, λ k. refl)
  run-Served true true true true false = (tt, same_error _, λ k. refl)
  run-Served true true true true true = looped-Served true true refl
  run-Served false removes false has_metadata sets_permissions = (tt, same_error _, λ k. refl)
  run-Served false removes true false sets_permissions = (tt, same_error _, λ k. refl)
  run-Served false removes true true false = (tt, same_error _, λ k. refl)
  run-Served false removes true true true = looped-Served false removes refl

-- Whatever the calls on the file do, whoever comes, and whenever the tasks of the clients run: a file
-- that is there is removed before the socket is bound, and nobody is accepted or answered before
-- the mode of the new file is set. The server returns an error exactly if a step before its loop
-- fails, and it is the error of the first such step; then nobody is answered. Otherwise each client
-- that comes before the cancellation gets one answer, to its first read, if that gives a text, even
-- if the read comes after the cancellation; and nobody else gets any.
pub run_stats_server-IsOrderly :
    (socket_path : String) (ep_stats : List (ℕ × Name)) (host : Host) (events : List Event)
    → let out = run_stats_server socket_path ep_stats host events in
      IsOrderly (file_of host.exists) out.0
      × ((e : RouterError) → (out.1 ≡ some (err e)) ↔ (failure socket_path host ≡ some e))
      × ((k : ℕ)
          → responses k out.0
            ≡ elim (failure socket_path host) [ none ↦ answered ep_stats k k events | some e ↦ [] ])
unfolding run_stats_server
run_stats_server-IsOrderly socket_path ep_stats host events =
    run-Served socket_path ep_stats events host.exists host.removes host.binds host.has_metadata
      host.sets_permissions
