-- ===== src/Drive/BranchApi/Sample.antt =====
-- A drive with two branches of two realms, and a request for a branch of one of them.
use casfa.Base.{Result, ok, ◌≡◌, refl, some, none, [], ◌∷◌, true}
use casfa.Core.Text.{Text, ascii_decoder}
use casfa.Core.ByteOrder.{le_bytes}
use casfa.Encoding.Cb32.{codes}
use casfa.Drive.Sample.{sum_key, cas, files, root_key}
use casfa.Drive.Branches.{Branch, BranchStore}
use casfa.Drive.Branches.Memory.{MemoryBranches, remove_branch}
use casfa.Drive.Branches.Memory.Laws.{memory_branch_store}
use casfa.Drive.BranchApi.Requests.{
  user, Stop, created, CreateBody, BranchDraws, ApiConfig, parent_of_body, worker, Reply,
}
use casfa.Drive.BranchApi.{ApiWorld, create_handler, create_with, revoke, close}

abbrev pub branch_of : Text → Text → Branch
branch_of id realm_id = record {
  branch_id = id;
  realm_id = realm_id;
  parent_id = some (codes "r");
  expires_at = 50;
  access_verification = none;
}

abbrev pub branches : MemoryBranches
branches = record {
  branches =
      (codes "a", branch_of (codes "a") (codes "u"))
      ∷ (codes "b", branch_of (codes "b") (codes "v"))
      ∷ [];
  roots = (codes "a", root_key) ∷ (codes "b", root_key) ∷ [];
  realm_root_branch_id = [];
}

-- The worker asks for a branch of its own at the path "d".
abbrev pub body : CreateBody
body = record {
  mount_path = some (codes "/d");
  ttl = some 700000;
  parent_branch_id = some (codes " a");
  initial_transfers = none;
}

abbrev pub draws : BranchDraws
draws = record {
  branch_uuid = codes "n";
  realm_uuid = codes "m";
  now = 40;
  verification = codes "V";
}

abbrev pub config : ApiConfig
config = record { max_ttl_ms = 600000; base_url = some (codes "h/"); base64url = λ s. s }

abbrev pub start : ApiWorld memory_branch_store sum_key cas ascii_decoder le_bytes
start = (branches, ((files, 0), []))

abbrev pub made :
    Result Stop Reply × ApiWorld memory_branch_store sum_key cas ascii_decoder le_bytes
made =
    create_handler memory_branch_store sum_key cas ascii_decoder le_bytes config
      (some (worker (codes "u") (codes "a") true)) draws (some body) start

abbrev pub response : Reply
response = created (record {
  branch_id = codes "n";
  access_token = codes "n";
  expires_at = 600040;
  access_url_prefix = some (codes "h/branch/n/V");
})

pub parent-named : parent_of_body body.parent_branch_id ≡ some (codes "a")
unfolding casfa.Drive.Paths.trim casfa.Drive.Paths.front_space
parent-named = refl

pub made-ok : made.0 ≡ ok response
unfolding create_with casfa.Drive.BranchApi.create_in_branch casfa.Drive.BranchApi.insert_child
    casfa.Drive.Paths.trim casfa.Drive.Paths.front_space casfa.Drive.Paths.trim_slashes
    casfa.Drive.Paths.skip_slashes casfa.Drive.Paths.drop_end_slashes casfa.Drive.Paths.split_slash
    casfa.Drive.Branches.Memory.get_branch casfa.Drive.Branches.Memory.get_branch_root
    casfa.Maps.map_get casfa.Storage.same_key casfa.Drive.Resolver.resolve_path
    casfa.Drive.Resolver.resolve_segments casfa.Drive.Resolver.resolve_segment
    casfa.Drive.Resolver.get_node_decoded casfa.Cas.Lookup.get_node casfa.Storage.Memory.get
    casfa.Controller.hash_to_key casfa.Core.Node.encode_successor_node casfa.Core.Node.decode_node
    casfa.Core.Header.encode_header casfa.Core.Words.u32_bytes casfa.Core.Words.get_uint32
    casfa.Core.Node.decode_payload casfa.Core.Pascal.decode_pascal_string
    casfa.Core.Words.get_uint16 casfa.Drive.index_of casfa.Drive.decimal_index
made-ok = refl

-- The owner of the realm "u", which has no root yet, asks for a branch of it.
abbrev pub realm_body : CreateBody
realm_body = record {
  mount_path = some (codes "d");
  ttl = none;
  parent_branch_id = none;
  initial_transfers = none;
}

abbrev pub made_in_realm :
    Result Stop Reply × ApiWorld memory_branch_store sum_key cas ascii_decoder le_bytes
made_in_realm =
    create_handler memory_branch_store sum_key cas ascii_decoder le_bytes config
      (some (user (codes "u"))) draws (some realm_body) start

pub made_in_realm-ok : made_in_realm.0 ≡ ok response
unfolding create_with casfa.Drive.BranchApi.create_in_realm casfa.Drive.BranchApi.insert_child
    casfa.Drive.Paths.trim casfa.Drive.Paths.front_space casfa.Drive.Paths.trim_slashes
    casfa.Drive.Paths.skip_slashes casfa.Drive.Paths.drop_end_slashes casfa.Drive.Paths.split_slash
    casfa.Drive.Branches.Memory.get_branch casfa.Drive.Branches.Memory.get_branch_root
    casfa.Drive.Branches.Memory.ensure_realm_root casfa.Drive.Branches.Memory.get_realm_root
    casfa.Drive.Branches.Memory.get_realm_root_record casfa.Drive.World.ensure_empty_root
    casfa.Drive.Transfer.on_world casfa.Drive.World.put_node casfa.Drive.World.report
    casfa.Cas.Update.put_node casfa.Cas.Update.track_node casfa.Cas.Lookup.check_children
    casfa.Cas.Lookup.read_new_keys casfa.Cas.Lookup.read_times casfa.Storage.Memory.put
    casfa.Core.Node.encode_dict_node casfa.Controller.key_to_hash casfa.Maps.map_set
    casfa.Maps.map_get casfa.Storage.same_key casfa.Drive.Resolver.resolve_path
    casfa.Drive.Resolver.resolve_segments casfa.Drive.Resolver.resolve_segment
    casfa.Drive.Resolver.get_node_decoded casfa.Cas.Lookup.get_node casfa.Storage.Memory.get
    casfa.Controller.hash_to_key casfa.Core.Node.encode_successor_node casfa.Core.Node.decode_node
    casfa.Core.Header.encode_header casfa.Core.Words.u32_bytes casfa.Core.Words.get_uint32
    casfa.Core.Node.decode_payload casfa.Core.Pascal.decode_pascal_string
    casfa.Core.Pascal.encode_pascal_strings casfa.Core.Pascal.encode_pascal_string
    casfa.Core.Words.u16_bytes casfa.Base.sort mathlib.Core.List.zip casfa.Core.Words.get_uint16
    casfa.Drive.index_of casfa.Drive.decimal_index
made_in_realm-ok = refl
