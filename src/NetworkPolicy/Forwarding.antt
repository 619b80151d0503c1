-- ===== src/NetworkPolicy/Forwarding.antt =====
-- internal/networkpolicy/policy.go: network zones and the traffic between them that may be forwarded.
use control_center_stable.Prelude.{
  String, Bool, not, ◌&&◌, ◌||◌, ◌==◌, if◌then◌else◌, Result, ok, err,
}

-- A Go string type. The constants are upper case.
abbrev pub Zone : Type 0
Zone = String

-- `Zone.Valid`
unfoldable pub zone_valid : Zone → Bool
zone_valid z =
    z == "WAN"
    || z == "LAN"
    || z == "MANAGEMENT"
    || z == "DMZ"
    || z == "CLUSTER"
    || z == "STORAGE"
    || z == "BACKUP"

pub record ForwardingIntent : Type 0 where
  pub source : Zone
  pub destination : Zone
  pub explicitly_enabled : Bool
  pub edge_gateway_assigned : Bool

pub data ForwardingError : Type 0 where
  invalid_zone : Zone → ForwardingError
  forwarding_disabled edge_gateway_required : ForwardingError

-- `AuthorizeForwarding`
unfoldable pub authorize_forwarding : ForwardingIntent → Result ForwardingError (Unit {0})
unfolding zone_valid
authorize_forwarding intent =
    if not (zone_valid intent.source)
    then err (invalid_zone intent.source)
    else if not (zone_valid intent.destination)
    then err (invalid_zone intent.destination)
    else if intent.source == intent.destination
    then ok tt
    else if not intent.explicitly_enabled
    then err forwarding_disabled
    else if (intent.source == "WAN" || intent.destination == "WAN")
        && not intent.edge_gateway_assigned
    then err edge_gateway_required
    else ok tt
