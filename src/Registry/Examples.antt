-- ===== src/Registry/Examples.antt =====
-- The theorems on registry snapshots, applied to a registry of one domain.
use snagline.Prelude.{ℕ, ◌≡◌, refl, true, none, some, [], ◌∷◌, any}
use mathlib.Core.List.{Memᴰ}
use snagline.Registry.Snapshot.{
  Registry, DomainRoute, PrincipalRecord, EdgeRecord, KeyRecord, empty_map, put, put_all, index,
  usable, authorizes_case_issuer, authorizes_case_issuer_generation, signs, first_signing_key,
  signing_key_for,
}
use snagline.Registry.Authorizes.{IsIssuer, authorized-IsIssuer, one_generation}
use snagline.Registry.Signing.{IsSigner, IsListedSigner, signing_key-IsListedSigner, no_signing_key}

abbrev route : DomainRoute
route = record {
  domain = "d";
  dispatcher_principal_id = "p";
  issuer_edge_ids = "other" ∷ "edge" ∷ [];
  specialist_principal_ids = [];
  families = [];
  routing_epoch = 1;
}

abbrev signer : PrincipalRecord
signer = record { principal_id = "p"; roles = []; ssp_key_ids = "k1" ∷ "k2" ∷ []; edge_ids = [] }

abbrev edge : EdgeRecord
edge = record { edge_id = "edge"; generation = 3; principal_id = "p" }

abbrev revoked_key : KeyRecord
revoked_key = record {
  key_id = "k1";
  public_key = [];
  principal_id = "p";
  usage = "advice";
  not_before = 1;
  expires_at = 100;
  revoked_at = some 5;
}

abbrev good_key : KeyRecord
good_key = record revoked_key { key_id = "k2"; revoked_at = none }

abbrev registry : Registry
registry = record {
  revision = 1;
  routing_epoch = 1;
  previous_commitment = "";
  commitment = "";
  author_key_id = "";
  expires_at = 0;
  domains_list = route ∷ [];
  principals_list = signer ∷ [];
  edges_list = edge ∷ [];
  keys_list = revoked_key ∷ good_key ∷ [];
  domains = empty_map;
  principals = empty_map;
  edges = empty_map;
  keys = empty_map;
}

edge_is_authorized : authorizes_case_issuer_generation (index registry) "d" "edge" 3 ≡ true
unfolding index put_all put empty_map authorizes_case_issuer authorizes_case_issuer_generation any
edge_is_authorized = refl

authorized-IsIssuer_example : IsIssuer registry "d" "edge" 3
authorized-IsIssuer_example = authorized-IsIssuer registry "d" "edge" 3 edge_is_authorized

abbrev generation : ℕ
generation = 3

one_generation_example : generation ≡ generation
one_generation_example =
    one_generation (index registry) "d" "d" "edge" generation generation edge_is_authorized
      edge_is_authorized

good_key_signs : signing_key_for (index registry) "p" "advice" 50 ≡ some good_key
unfolding index put_all put empty_map signing_key_for first_signing_key signs usable
good_key_signs = refl

signing_key-IsListedSigner_example : IsListedSigner registry "p" "advice" 50 good_key
signing_key-IsListedSigner_example =
    signing_key-IsListedSigner registry "p" "advice" 50 good_key good_key_signs

nothing_signs : signing_key_for (index registry) "p" "advice" 100 ≡ none
unfolding index put_all put empty_map signing_key_for first_signing_key signs usable
nothing_signs = refl

signer_is_there : (index registry).principals "p" ≡ some signer
unfolding index put_all put empty_map
signer_is_there = refl

good_key_is_there : (index registry).keys "k2" ≡ some good_key
unfolding index put_all put empty_map
good_key_is_there = refl

no_signing_key_example : ¬ IsSigner "p" "advice" 100 good_key
no_signing_key_example =
    no_signing_key (index registry) "p" "advice" 100 signer "k2" good_key nothing_signs
      signer_is_there (Memᴰ.tail (Memᴰ.head refl)) good_key_is_there
