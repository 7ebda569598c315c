-- ===== src/Config/Merging.antt =====
-- src/config/merge.rs: the overlay of one configuration by another.
use mavrouter.Prelude.{refl, Option, none, some, ◌≡◌, ◌++◌, nat_eq, string_eq, name_eq}
use mathlib.Core.List.{append_assoc}
use mavrouter.Config.{Config, default_config}

-- `if overlay.is_some() { overlay } else { base }`.
abbrev overlay {ℓ} : {A : Type ℓ} → Option A → Option A → Option A
overlay base none = base
overlay base (some a) = some a

unfoldable pub merge : Config → Config → Config
merge self other =
    let general = other.general in
    record {
      general = record general {
        tcp_port = overlay self.general.tcp_port general.tcp_port;
        dedup_period_ms = overlay self.general.dedup_period_ms general.dedup_period_ms;
        log = overlay self.general.log general.log;
        stats_socket_path = overlay self.general.stats_socket_path general.stats_socket_path;
      };
      endpoint = self.endpoint ++ other.endpoint;
    }

overlay-none {ℓ} : {A : Type ℓ} (o : Option A) → overlay none o ≡ o
overlay-none none = refl
overlay-none (some a) = refl

overlay_assoc {ℓ} :
    {A : Type ℓ} (a b c : Option A) → overlay (overlay a b) c ≡ overlay a (overlay b c)
overlay_assoc a b none = refl
overlay_assoc a b (some x) = refl

-- Merging is associative, and the default configuration is its unit on the left: the files of a
-- directory may be merged in any grouping, as long as their order is kept, and an empty
-- configuration below them changes nothing.
pub merge_monoid :
    (a b c : Config) → (merge (merge a b) c ≡ merge a (merge b c)) × (merge default_config c ≡ c)
unfolding merge
merge_monoid a b c = (
  rw
      (
        overlay_assoc a.general.tcp_port b.general.tcp_port c.general.tcp_port,
        overlay_assoc a.general.dedup_period_ms b.general.dedup_period_ms c.general.dedup_period_ms,
        overlay_assoc a.general.log b.general.log c.general.log,
        overlay_assoc a.general.stats_socket_path b.general.stats_socket_path
            c.general.stats_socket_path,
        append_assoc a.endpoint b.endpoint c.endpoint,
      )
      refl,
  rw
      (
        overlay-none c.general.tcp_port,
        overlay-none c.general.dedup_period_ms,
        overlay-none c.general.log,
        overlay-none c.general.stats_socket_path,
      )
      refl,
)
