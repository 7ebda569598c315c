-- ===== src/Endpoint/Display.antt =====
-- src/endpoint_core/stats.rs: the snapshot of the counters, and how it is shown.
use mavrouter.Prelude.{ℕ, refl, sym, ap, Option, some, [], ◌^◌, ◌<◌, ◌≡◌, ◌∙◌, ◌++◌, nat_eq}
use mathlib.Core.List.{append-nil}
use mavrouter.Prelude.Text.{Text, codes, to_string, bind_option, read_field, read_field-to_string}
use mavrouter.Endpoint.{EndpointStats}

pub record EndpointStatsSnapshot : Type 0 where
  pub msgs_in : ℕ
  pub msgs_out : ℕ
  pub bytes_in : ℕ
  pub bytes_out : ℕ
  pub errors : ℕ
  pub bus_lagged : ℕ

unfoldable pub snapshot : EndpointStats → EndpointStatsSnapshot
snapshot stats = record {
  msgs_in = stats.msgs_in;
  msgs_out = stats.msgs_out;
  bytes_in = stats.bytes_in;
  bytes_out = stats.bytes_out;
  errors = stats.errors;
  bus_lagged = stats.bus_lagged;
}

-- `Display` of the snapshot.
unfoldable pub fmt : EndpointStatsSnapshot → Text
fmt snap =
    codes "in="
    ++ (to_string snap.msgs_in
        ++ (codes "/"
            ++ (to_string snap.bytes_in
                ++ (codes " out="
                    ++ (to_string snap.msgs_out
                        ++ (codes "/"
                            ++ (to_string snap.bytes_out
                                ++ (codes " err="
                                    ++ (to_string snap.errors
                                        ++ (codes " lagged=" ++ to_string snap.bus_lagged))))))))))

-- A reader of what is shown.
unfoldable pub read_shown : Text → Option EndpointStatsSnapshot
read_shown s = bind_option (read_field (codes "in=") s) λ (msgs_in, s1).
    bind_option (read_field (codes "/") s1) λ (bytes_in, s2).
      bind_option (read_field (codes " out=") s2) λ (msgs_out, s3).
        bind_option (read_field (codes "/") s3) λ (bytes_out, s4).
          bind_option (read_field (codes " err=") s4) λ (errors, s5).
            bind_option (read_field (codes " lagged=") s5) λ (bus_lagged, s6). some (record {
              msgs_in = msgs_in;
              msgs_out = msgs_out;
              bytes_in = bytes_in;
              bytes_out = bytes_out;
              errors = errors;
              bus_lagged = bus_lagged;
            })

-- The counters fit 64 bits.
pub record FitsU64 (snap : EndpointStatsSnapshot) : Type 0 where
  pub msgs_in : snap.msgs_in < 2 ^ 64
  pub msgs_out : snap.msgs_out < 2 ^ 64
  pub bytes_in : snap.bytes_in < 2 ^ 64
  pub bytes_out : snap.bytes_out < 2 ^ 64
  pub errors : snap.errors < 2 ^ 64
  pub bus_lagged : snap.bus_lagged < 2 ^ 64

last_field :
    (n : ℕ)
    → n < 2 ^ 64
    → read_field (codes " lagged=") (codes " lagged=" ++ to_string n) ≡ some (n, [])
last_field n h =
    ap (λ t. read_field (codes " lagged=") (codes " lagged=" ++ t)) (sym (append-nil (to_string n)))
    ∙ read_field-to_string (codes " lagged=") n [] h tt

-- What is shown of the counters is all of them: they are read back from it.
read_shown-fmt : (snap : EndpointStatsSnapshot) → FitsU64 snap → read_shown (fmt snap) ≡ some snap
unfolding read_shown fmt
read_shown-fmt snap fits =
    rw
      (
        read_field-to_string (codes "in=") snap.msgs_in _ fits.msgs_in refl,
        read_field-to_string (codes "/") snap.bytes_in _ fits.bytes_in refl,
        read_field-to_string (codes " out=") snap.msgs_out _ fits.msgs_out refl,
        read_field-to_string (codes "/") snap.bytes_out _ fits.bytes_out refl,
        read_field-to_string (codes " err=") snap.errors _ fits.errors refl,
        last_field snap.bus_lagged fits.bus_lagged,
      )
      refl
