-- ===== src/Drive/BranchApi/Errors.antt =====
-- Which errors the handlers of cells/drive/backend/controllers/branches.ts answer with status 400, by the texts that
-- they look for in the message.
use casfa.Base.{Bool, true, false}
use casfa.Drive.{
  DriveError, path_error, path_empty, entry_not_found, segment_not_found, parent_path_not_found,
  realm_root_not_found, source_required, target_required, mapping_empty, targets_nested,
  merge_dir_not_implemented, source_branch_not_found, target_branch_not_found, realms_differ,
  source_path_not_found, target_path_exists,
}

-- "required", "must not" and "ancestor/descendant".
abbrev pub is_bad_create : DriveError → Bool
is_bad_create (path_error e) = true
is_bad_create path_empty = true
is_bad_create source_required = true
is_bad_create target_required = true
is_bad_create mapping_empty = true
is_bad_create targets_nested = true
is_bad_create _ = false

-- "required", "must not", "exists", "not found", "same realm" and "not implemented".
abbrev pub is_bad_transfer : DriveError → Bool
is_bad_transfer (path_error e) = true
is_bad_transfer path_empty = true
is_bad_transfer source_required = true
is_bad_transfer target_required = true
is_bad_transfer mapping_empty = true
is_bad_transfer targets_nested = true
is_bad_transfer (target_path_exists path) = true
is_bad_transfer (source_path_not_found path) = true
is_bad_transfer (entry_not_found name) = true
is_bad_transfer (segment_not_found name) = true
is_bad_transfer parent_path_not_found = true
is_bad_transfer realm_root_not_found = true
is_bad_transfer source_branch_not_found = true
is_bad_transfer target_branch_not_found = true
is_bad_transfer realms_differ = true
is_bad_transfer merge_dir_not_implemented = true
is_bad_transfer _ = false
