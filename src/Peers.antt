-- ===== src/Peers.antt =====
-- internal/model/model.go: the identities and peers of a cluster, their checks, and the stores of the
-- members and the peers. The functions of `strings` and `net` on texts are the interface `Texts`; an
-- error is a constructor in place of its text. A copy of a slice or a map is the value itself.
use mathlib.Core.Logic.{◌⊎◌, inl, inr}
use cue.Base.{ℕ, ◌≡◌, refl, Bool, true, List, Option, none, some, String, if◌then◌else◌, ltb}
use cue.Base.Key.{string_key, ◌=?◌}
use cue.Base.Dict.{Dict, lookup}
use cue.Codec.{IdentityKind, dns, ip, spiffe, unknown_kind, TlsIdentity, PeerInfo}

-- `len`, `strings.TrimSpace`, `strings.ToLower`, `strings.HasPrefix`, and whether `net.ParseIP` finds an
-- address
pub record Texts : Type 0 where
  pub size : String → ℕ
  pub trim : String → String
  pub lower : String → String
  pub has_prefix : String → String → Bool
  pub is_ip : String → Bool

-- `identityKindStrings`; the text of another number is left out
unfoldable pub kind_text : IdentityKind → String
kind_text dns = "dns"
kind_text ip = "ip"
kind_text spiffe = "spiffe"
kind_text unknown_kind = "unknown"

-- `UnmarshalText`
unfoldable pub unmarshal_text : Texts → String → Option IdentityKind
unmarshal_text t text =
    let s = t.lower (t.trim text) in
    if s =? "dns"
    then some dns
    else if s =? "ip"
    then some ip
    else if s =? "spiffe"
    then some spiffe
    else none

pub data PeerError : Type 0 where
  identity_value_missing identity_kind_unknown dns_name_too_long identity_not_ip : PeerError
  spiffe_prefix_missing node_id_missing node_id_too_long host_not_ip : PeerError

-- The kind-specific checks of an identity.
unfoldable pub check_kind : Texts → IdentityKind → String → Option PeerError
check_kind t dns value = if ltb 253 (t.size value) then some dns_name_too_long else none
check_kind t ip value = if t.is_ip value then none else some identity_not_ip
check_kind t spiffe value =
    if t.has_prefix (t.lower value) "spiffe://" then none else some spiffe_prefix_missing
check_kind t unknown_kind value = some identity_kind_unknown

-- `TLSIdentity.Validate`
unfoldable pub validate_identity : Texts → TlsIdentity → Option PeerError
unfolding check_kind
validate_identity t i =
    if t.trim i.value =? "" then some identity_value_missing else check_kind t i.kind i.value

-- `PeerInfo.Validate`; the host may be left out
unfoldable pub validate_peer : Texts → PeerInfo → Option PeerError
unfolding validate_identity
validate_peer t p =
    if t.trim p.node_id =? ""
    then some node_id_missing
    else if ltb 64 (t.size p.node_id)
    then some node_id_too_long
    else if (if t.trim p.host =? "" then true else t.is_ip p.host)
    then validate_identity t p.identity
    else some host_not_ip

pub record Members : Type 0 where
  pub voters : List String
  pub learners : List String

-- `Members.Get` and `Members.Update`
unfoldable pub get_members : Members → List String × List String
get_members m = (m.voters, m.learners)

unfoldable pub update_members : Members → List String → List String → Members
update_members m voters learners = record { voters = voters; learners = learners }

pub record PeerStore : Type 0 where
  pub peers : Dict String PeerInfo

-- `PeerStore.Get`, `Lookup` and `Set`
unfoldable pub get_peers : PeerStore → Dict String PeerInfo
get_peers s = s.peers

unfoldable pub lookup_peer : PeerStore → String → Option PeerInfo
lookup_peer s node_id = lookup node_id s.peers

unfoldable pub set_peers : PeerStore → Dict String PeerInfo → PeerStore
set_peers s peers = record s { peers = peers }

-- Where trimming and lowering leave the text of a kind as it is, the text is read as that kind.
unmarshal_text-kind_text :
    (t : Texts) (k : IdentityKind)
    → (k ≡ dns) ⊎ ((k ≡ ip) ⊎ (k ≡ spiffe))
    → t.lower (t.trim (kind_text k)) ≡ kind_text k
    → unmarshal_text t (kind_text k) ≡ some k
unfolding kind_text unmarshal_text
unmarshal_text-kind_text t dns known h = rw h refl
unmarshal_text-kind_text t ip known h = rw h refl
unmarshal_text-kind_text t spiffe known h = rw h refl
unmarshal_text-kind_text t unknown_kind (inl e) h = absurd cc
unmarshal_text-kind_text t unknown_kind (inr (inl e)) h = absurd cc
unmarshal_text-kind_text t unknown_kind (inr (inr e)) h = absurd cc
