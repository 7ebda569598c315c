-- ===== src/StatsServer/Answers.antt =====
-- What a client reads in the answers to its queries.
use mavrouter.Prelude.{
  ℕ, zero, suc, refl, ap, true, none, some, List, [], arith, length, All, All-append, length-append,
  ◌≤◌, ◌<◌, ◌≡◌, ◌∙◌, ◌∷◌, ◌++◌, nat_eq,
}
use mathlib.Core.List.{append_assoc, reverse, reverse-append, reverse-reverse, reverse-cons}
use mavrouter.Prelude.Text.{Text, codes, expect}
use mavrouter.Routing.Table.{stats}
use mavrouter.Endpoint.{EndpointStats}
use mavrouter.Endpoint.Display.{EndpointStatsSnapshot, snapshot}
use mavrouter.Orchestration.{Name}
use mavrouter.Orchestration.Names.{name_text}
use mavrouter.StatsServer.{
  entry, join_rest, entries, endpoint_stats_response, is_whitespace, trim_start, trim, View,
  respond,
}
use mavrouter.StatsServer.Json.{
  Entry, FitsStats, FitsEntry, entry_of, read_stats, read_stats-response, read_entry-entry,
  read_more, read_endpoint_stats, read_list,
}

-- What is shown of the endpoints.
abbrev pub shown : (ℕ → EndpointStats) → List (ℕ × Name) → List Entry
shown counters [] = []
shown counters ((id, name) ∷ ep_stats) =
    entry_of id (name_text name) (snapshot (counters id)) ∷ shown counters ep_stats

abbrev pub Fits : (ℕ → EndpointStats) → List (ℕ × Name) → Type 0
Fits counters ep_stats =
    All (λ (id, name). FitsEntry id (name_text name) (snapshot (counters id))) ep_stats

read_more-entries :
    (counters : ℕ → EndpointStats) (ep_stats : List (ℕ × Name)) (fuel : ℕ)
    → length ep_stats < fuel
    → Fits counters ep_stats
    → read_more fuel (join_rest (entries counters ep_stats) ++ (b']' ∷ []))
      ≡ some (shown counters ep_stats, [])
unfolding read_more
read_more-entries counters [] zero h fits = absurd (omega (arith, h))
read_more-entries counters [] (suc fuel) h fits = refl
read_more-entries counters (e ∷ ep_stats) zero h fits = absurd (omega (arith, h))
read_more-entries counters ((id, name) ∷ ep_stats) (suc fuel) h fits =
    rw
      (
        append_assoc (entry id (name_text name) (snapshot (counters id)))
            (join_rest (entries counters ep_stats)) (b']' ∷ []),
        read_entry-entry id (name_text name) (snapshot (counters id)) _ fits.0,
        read_more-entries counters ep_stats fuel (omega (arith, h)) fits.1,
      )
      refl

length-rest :
    (counters : ℕ → EndpointStats) (ep_stats : List (ℕ × Name)) (s : Text)
    → length ep_stats ≤ length (join_rest (entries counters ep_stats) ++ s)
length-rest counters [] s = omega arith
length-rest counters ((id, name) ∷ ep_stats) s =
    let first = entry id (name_text name) (snapshot (counters id)) in
    let rest = join_rest (entries counters ep_stats) in
    rw (append_assoc first rest s, length-append first (rest ++ s))
      (omega (arith, length-rest counters ep_stats s))

-- An entry does not begin with the bracket.
entry-opens :
    (id : ℕ) (name : Text) (snap : EndpointStatsSnapshot) (s : Text)
    → expect (codes "]") (entry id name snap ++ s) ≡ none
unfolding entry
entry-opens id name snap s = refl

read_list-entries :
    (counters : ℕ → EndpointStats) (id fuel : ℕ) (name : Name) (ep_stats : List (ℕ × Name))
    → length ep_stats < fuel
    → Fits counters ((id, name) ∷ ep_stats)
    → read_list fuel
        (entry id (name_text name) (snapshot (counters id))
          ++ (join_rest (entries counters ep_stats) ++ (b']' ∷ [])))
        none
      ≡ some (shown counters ((id, name) ∷ ep_stats), [])
unfolding read_list
read_list-entries counters id fuel name ep_stats h fits =
    rw
      (
        read_entry-entry id (name_text name) (snapshot (counters id)) _ fits.0,
        read_more-entries counters ep_stats fuel h fits.1,
      )
      refl

read_endpoint_stats-response :
    (counters : ℕ → EndpointStats) (ep_stats : List (ℕ × Name))
    → Fits counters ep_stats
    → read_endpoint_stats (endpoint_stats_response counters ep_stats)
      ≡ some (shown counters ep_stats, [])
unfolding read_endpoint_stats endpoint_stats_response read_list
read_endpoint_stats-response counters [] fits = refl
read_endpoint_stats-response counters ((id, name) ∷ ep_stats) fits =
    let first = entry id (name_text name) (snapshot (counters id)) in
    let rest = join_rest (entries counters ep_stats) ++ (b']' ∷ []) in
    let enough : length ep_stats < suc (length (first ++ rest)) =
      rw (length-append first rest) (omega (arith, length-rest counters ep_stats (b']' ∷ []))) in
    ap (λ t. read_list (suc (length t)) t (expect (codes "]") t))
      (append_assoc first (join_rest (entries counters ep_stats)) (b']' ∷ []))
    ∙ ap (read_list (suc (length (first ++ rest))) (first ++ rest))
        (entry-opens id (name_text name) (snapshot (counters id)) rest)
    ∙ read_list-entries counters id (suc (length (first ++ rest))) name ep_stats enough fits

abbrev pub IsBlank : Text → Type 0
IsBlank s = All (λ c. is_whitespace c ≡ true) s

IsBlank-append : (s t : Text) → IsBlank s → IsBlank t → IsBlank (s ++ t)
IsBlank-append s t = All-append (λ c. is_whitespace c ≡ true) s t

trim_start-blank : (s t : Text) → IsBlank s → trim_start (s ++ t) ≡ trim_start t
unfolding trim_start
trim_start-blank [] t blank = refl
trim_start-blank (c ∷ s) t blank = rw blank.0 (trim_start-blank s t blank.1)

reverse-IsBlank : (s : Text) → IsBlank s → IsBlank (reverse s)
reverse-IsBlank [] blank = tt
reverse-IsBlank (c ∷ s) blank =
    rw (reverse-cons c s)
      (IsBlank-append (reverse s) (c ∷ []) (reverse-IsBlank s blank.1) (blank.0, tt))

-- A command begins and ends with a character that is no space.
abbrev IsTight : Text → Type 0
IsTight word =
    ((s : Text) → trim_start (word ++ s) ≡ word ++ s) × (trim_start (reverse word) ≡ reverse word)

trim-padded :
    (word before behind : Text)
    → IsTight word
    → IsBlank before
    → IsBlank behind
    → trim (before ++ (word ++ behind)) ≡ word
unfolding trim
trim-padded word before behind (opens, closes) b e =
    rw
      (
        trim_start-blank before (word ++ behind) b,
        opens behind,
        reverse-append word behind,
        trim_start-blank (reverse behind) (reverse word) (reverse-IsBlank behind e),
        closes,
      )
      (reverse-reverse word)

stats-IsTight : IsTight (codes "stats")
unfolding trim_start
stats-IsTight = (λ s. refl, refl)

endpoint_stats-IsTight : IsTight (codes "endpoint_stats")
unfolding trim_start
endpoint_stats-IsTight = (λ s. refl, refl)

-- Whatever white space stands around a query, and if the counters fit 64 bits and no name of an
-- endpoint has a quote, a backslash or a control character: what a client reads in the answer to
-- `stats` are the statistics of the routing table at that time, and in the answer to
-- `endpoint_stats` the id, the name and the counters of each endpoint, in their order, but for
-- those of messages missed on the bus.
pub respond-read :
    (ep_stats : List (ℕ × Name)) (view : View) (before behind : Text)
    → FitsStats (stats view.routing_table view.unix_secs)
    → Fits view.counters ep_stats
    → IsBlank before
    → IsBlank behind
    → let answered = λ (word : Text). respond ep_stats view (trim (before ++ (word ++ behind))) in
      (read_stats (answered (codes "stats")) ≡ some (stats view.routing_table view.unix_secs))
      × (read_endpoint_stats (answered (codes "endpoint_stats"))
          ≡ some (shown view.counters ep_stats, []))
unfolding respond
respond-read ep_stats view before behind fits fit b e = (
  rw (trim-padded (codes "stats") before behind stats-IsTight b e)
      (read_stats-response (stats view.routing_table view.unix_secs) fits),
  rw (trim-padded (codes "endpoint_stats") before behind endpoint_stats-IsTight b e)
      (read_endpoint_stats-response view.counters ep_stats fit),
)
