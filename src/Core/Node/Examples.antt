-- ===== src/Core/Node/Examples.antt =====
-- Concrete nodes, and the theorems about encoding and decoding at them.
use casfa.Base.{
  ℕ, ◌≡◌, ◌≢◌, refl, arith, List, [], ◌∷◌, Bytes, ok, err, replicate, length, get_or, ap, ◌∙◌, ◌%◌,
}
use casfa.Core.Errors.{set_duplicate_child, set_too_few_children}
use casfa.Core.Text.{Text, ascii_decoder}
use casfa.Core.Pascal.{encode_pascal_strings}
use casfa.Core.Node.{
  NodeKind, EncodedNode, finish, bare_node, Entry, has_duplicate, decode_node, encode_set_node,
  encode_successor_node, encode_file_node,
}
use casfa.Core.Node.Fields.{IsContentType}
use casfa.Core.Node.RoundTrip.{set_node_bytes}
use casfa.Core.Node.Directory.{name_of, encode_entries, dict_node_bytes}
use mathlib.Core.List.{Pairwise, Perm, not-mem-nil, mem-singleton}
use mathlib.Core.List.Perm

abbrev sixteen : ℕ → Bytes
sixteen b = replicate 16 b

abbrev first_bytes : Bytes → Bytes
first_bytes bytes = replicate 16 (length bytes % 256)

abbrev plain : Bytes
plain = 97 ∷ 47 ∷ 98 ∷ []

plain-IsContentType : IsContentType ascii_decoder plain
plain-IsContentType = record { short = omega arith; no_zero = omega arith; valid = refl }

one_child : encode_set_node first_bytes (sixteen 3 ∷ []) ≡ err set_too_few_children
unfolding encode_set_node
one_child = refl

equal_children : encode_set_node first_bytes (sixteen 3 ∷ sixteen 3 ∷ []) ≡ err set_duplicate_child
unfolding encode_set_node
equal_children = refl

abbrev two_children : List Bytes
two_children = sixteen 9 ∷ sixteen 3 ∷ []

abbrev set_node : EncodedNode
set_node = finish first_bytes (set_node_bytes (sixteen 3 ∷ sixteen 9 ∷ []) 2)

set_encoded : encode_set_node first_bytes two_children ≡ ok set_node
unfolding encode_set_node
set_encoded = refl

abbrev entries : List Entry
entries = (98 ∷ [], sixteen 3) ∷ (97 ∷ 99 ∷ [], sixteen 9) ∷ []

abbrev sorted : List Entry
sorted = (97 ∷ 99 ∷ [], sixteen 9) ∷ (98 ∷ [], sixteen 3) ∷ []

different_heads : ◌≢◌ {A = Text} (98 ∷ []) (97 ∷ 99 ∷ [])
different_heads h = let u : ◌≡◌ {A = ℕ} 98 97 = ap (λ t. get_or t 0 0) h in absurd (omega arith)

entry_set : IsSet Entry
entry_set = hlevel

entries_apart : Pairwise (λ (a b : Entry). a.0 ≢ b.0) entries
entries_apart =
    Pairwise.cons (λ e m h. different_heads (h ∙ ap name_of ((mem-singleton entry_set).0 m)))
      (Pairwise.cons (λ e m. absurd (not-mem-nil m)) Pairwise.nil)

entries-Perm : Perm entries sorted
entries-Perm = Perm.swap (97 ∷ 99 ∷ [], sixteen 9) (98 ∷ [], sixteen 3) []

abbrev names_bytes : Bytes
names_bytes = 2 ∷ 0 ∷ 97 ∷ 99 ∷ 1 ∷ 0 ∷ 98 ∷ []

abbrev dict_node : EncodedNode
dict_node = finish first_bytes (dict_node_bytes sorted names_bytes)

dict_encoded : encode_entries first_bytes entries ≡ ok dict_node
unfolding casfa.Core.Node.encode_dict_node encode_pascal_strings mathlib.Core.List.zip
    casfa.Core.Pascal.encode_pascal_string casfa.Core.Words.u16_bytes
dict_encoded = refl
