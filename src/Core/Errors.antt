-- ===== src/Core/Errors.antt =====
-- What the functions of packages/core throw. A constructor stands for one `throw new Error(...)`, its
-- text left out; `out_of_range` is the RangeError of a `DataView` that reads past its buffer.
pub data CoreError : Type 0 where
  buffer_too_small : CoreError
  invalid_magic : CoreError
  out_of_range : CoreError
  unknown_node_type : CoreError
  string_too_long : CoreError
  no_string_length : CoreError
  no_string_content : CoreError
  content_type_too_long : CoreError
  set_too_few_children : CoreError
  set_duplicate_child : CoreError
  children_count_mismatch : CoreError
