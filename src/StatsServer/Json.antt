-- ===== src/StatsServer/Json.antt =====
-- A reader of the responses, which knows only their format.
use mavrouter.Prelude.{
  ℕ, zero, suc, refl, Bool, false, ltb, ◌||◌, Option, none, some, List, [], length, All, ◌^◌, ◌<◌,
  ◌≡◌, ◌∷◌, ◌++◌, ◌==◌, if◌then◌else◌, nat_eq,
}
use mavrouter.Prelude.Text.{
  expect, bind_option, read_field, read_field-to_string, Text, codes, to_string,
}
use mathlib.Core.List.{append_assoc}
use mavrouter.Routing.Table.{RoutingStats}
use mavrouter.StatsServer.{stats_response, entry, EndpointStatsSnapshot}

-- What JSON does not allow in a string as it is: a backslash, or a control character.
abbrev pub is_special : ℕ → Bool
is_special c = (c == 0x5C) || ltb c 0x20

-- The characters up to the quote, which is dropped.
unfoldable pub read_name : Text → Option (Text × Text)
read_name [] = none
read_name (c ∷ s) =
    let rest = read_name s in
    if c == b'"'
    then some ([], s)
    else if is_special c
    then none
    else bind_option rest λ (name, left). some (c ∷ name, left)

unfoldable pub read_stats : Text → Option RoutingStats
read_stats s = bind_option (read_field (codes "{\"total_systems\":") s) λ (systems, s1).
    bind_option (read_field (codes ",\"total_routes\":") s1) λ (routes, s2).
      bind_option (read_field (codes ",\"total_endpoints\":") s2) λ (endpoints, s3).
        bind_option (read_field (codes ",\"timestamp\":") s3) λ (timestamp, s4).
          bind_option (expect (codes "}") s4) λ s5. some (record {
            total_systems = systems;
            total_routes = routes;
            total_endpoints = endpoints;
            timestamp = timestamp;
          })

-- What an entry says.
pub record Entry : Type 0 where
  pub id : ℕ
  pub name : Text
  pub msgs_in : ℕ
  pub msgs_out : ℕ
  pub bytes_in : ℕ
  pub bytes_out : ℕ
  pub errors : ℕ

unfoldable pub read_entry : Text → Option (Entry × Text)
read_entry s = bind_option (read_field (codes "{\"id\":") s) λ (id, s1).
    bind_option (bind_option (expect (codes ",\"name\":\"") s1) read_name) λ (name, s2).
      bind_option (read_field (codes ",\"msgs_in\":") s2) λ (msgs_in, s3).
        bind_option (read_field (codes ",\"msgs_out\":") s3) λ (msgs_out, s4).
          bind_option (read_field (codes ",\"bytes_in\":") s4) λ (bytes_in, s5).
            bind_option (read_field (codes ",\"bytes_out\":") s5) λ (bytes_out, s6).
              bind_option (read_field (codes ",\"errors\":") s6) λ (errors, s7).
                bind_option (expect (codes "}") s7) λ s8. some (
                  record {
                    id = id;
                    name = name;
                    msgs_in = msgs_in;
                    msgs_out = msgs_out;
                    bytes_in = bytes_in;
                    bytes_out = bytes_out;
                    errors = errors;
                  },
                  s8,
                )

-- The fields fit 64 bits.
pub record FitsStats (s : RoutingStats) : Type 0 where
  pub systems : s.total_systems < 2 ^ 64
  pub routes : s.total_routes < 2 ^ 64
  pub endpoints : s.total_endpoints < 2 ^ 64
  pub timestamp : s.timestamp < 2 ^ 64

pub read_stats-response : (s : RoutingStats) → FitsStats s → read_stats (stats_response s) ≡ some s
unfolding read_stats stats_response
read_stats-response s fits =
    rw
      (
        read_field-to_string (codes "{\"total_systems\":") s.total_systems _ fits.systems refl,
        read_field-to_string (codes ",\"total_routes\":") s.total_routes _ fits.routes refl,
        read_field-to_string (codes ",\"total_endpoints\":") s.total_endpoints _ fits.endpoints
            refl,
        read_field-to_string (codes ",\"timestamp\":") s.timestamp _ fits.timestamp refl,
      )
      refl

-- Behind the first entry: a comma and an entry each, up to the bracket; on fuel.
unfoldable pub read_more : ℕ → Text → Option (List Entry × Text)
read_more zero s = none
read_more (suc fuel) [] = none
read_more (suc fuel) (c ∷ s) =
    if c == b']'
    then some ([], s)
    else if c == b','
    then bind_option (read_entry s)
        (λ (e, s1). bind_option (read_more fuel s1) (λ (es, s2). some (e ∷ es, s2)))
    else none

-- An empty list, or a first entry and more.
unfoldable pub read_list : ℕ → Text → Option Text → Option (List Entry × Text)
read_list fuel s1 (some s2) = some ([], s2)
read_list fuel s1 none =
    bind_option (read_entry s1)
      (λ (e, s2). bind_option (read_more fuel s2) (λ (es, s3). some (e ∷ es, s3)))

-- The text has more characters than entries.
unfoldable pub read_endpoint_stats : Text → Option (List Entry × Text)
read_endpoint_stats s =
    bind_option (expect (codes "[") s) λ s1. read_list (length s) s1 (expect (codes "]") s1)

-- No quote, which would end the string, and nothing that would be escaped.
abbrev pub IsPlain : Text → Type 0
IsPlain name = All (λ c. ((c == b'"') ≡ false) × (is_special c ≡ false)) name

abbrev pub entry_of : ℕ → Text → EndpointStatsSnapshot → Entry
entry_of id name snap = record {
  id = id;
  name = name;
  msgs_in = snap.msgs_in;
  msgs_out = snap.msgs_out;
  bytes_in = snap.bytes_in;
  bytes_out = snap.bytes_out;
  errors = snap.errors;
}

pub record FitsEntry (id : ℕ) (name : Text) (snap : EndpointStatsSnapshot) : Type 0 where
  pub id_fits : id < 2 ^ 64
  pub plain : IsPlain name
  pub msgs_in : snap.msgs_in < 2 ^ 64
  pub msgs_out : snap.msgs_out < 2 ^ 64
  pub bytes_in : snap.bytes_in < 2 ^ 64
  pub bytes_out : snap.bytes_out < 2 ^ 64
  pub errors : snap.errors < 2 ^ 64

read_name-plain : (name s : Text) → IsPlain name → read_name (name ++ (b'"' ∷ s)) ≡ some (name, s)
unfolding read_name
read_name-plain [] s plain = refl
read_name-plain (c ∷ name) s plain = rw (plain.0.0, plain.0.1, read_name-plain name s plain.1) refl

entry-append :
    (id : ℕ) (name : Text) (snap : EndpointStatsSnapshot) (s : Text)
    → entry id name snap ++ s
      ≡ codes "{\"id\":"
        ++ (to_string id
            ++ (codes ",\"name\":\""
                ++ (name
                    ++ (b'"'
                        ∷ (codes ",\"msgs_in\":"
                            ++ (to_string snap.msgs_in
                                ++ (codes ",\"msgs_out\":"
                                    ++ (to_string snap.msgs_out
                                        ++ (codes ",\"bytes_in\":"
                                            ++ (to_string snap.bytes_in
                                                ++ (codes ",\"bytes_out\":"
                                                    ++ (to_string snap.bytes_out
                                                        ++ (codes ",\"errors\":"
                                                            ++ (to_string snap.errors
                                                            ++ (codes "}" ++ s)))))))))))))))
unfolding entry
entry-append id name snap s = simp append_assoc

pub read_entry-entry :
    (id : ℕ) (name : Text) (snap : EndpointStatsSnapshot) (s : Text)
    → FitsEntry id name snap
    → read_entry (entry id name snap ++ s) ≡ some (entry_of id name snap, s)
unfolding read_entry
read_entry-entry id name snap s fits =
    rw
      (
        entry-append id name snap s,
        read_field-to_string (codes "{\"id\":") id _ fits.id_fits refl,
        read_name-plain name _ fits.plain,
        read_field-to_string (codes ",\"msgs_in\":") snap.msgs_in _ fits.msgs_in refl,
        read_field-to_string (codes ",\"msgs_out\":") snap.msgs_out _ fits.msgs_out refl,
        read_field-to_string (codes ",\"bytes_in\":") snap.bytes_in _ fits.bytes_in refl,
        read_field-to_string (codes ",\"bytes_out\":") snap.bytes_out _ fits.bytes_out refl,
        read_field-to_string (codes ",\"errors\":") snap.errors _ fits.errors refl,
      )
      refl
