-- ===== src/Controller/Examples.antt =====
-- Concrete runs of the controller, and its theorems at concrete inputs.
use casfa.Base.{
  ℕ, ◌*◌, ◌/◌, ◌%◌, ◌^◌, ◌≡◌, ◌≢◌, get_or, refl, sym, ap, inl, inr, [], ◌∷◌, length, replicate,
  Bytes, ok, some, arith, true,
}
use casfa.Core.Text.{ascii_decoder}
use casfa.Core.Node.Fields.{IsContentType}
use casfa.Core.Topology.{
  Capacity, whole, LayoutNode, layout, cons, nil, compute_layout, compute_layout_at_depth,
  compute_depth,
}
use casfa.Controller.{hash_to_key}
use casfa.Controller.Write.{WriteResult, write_file}
use casfa.Controller.Tree.{tree_bytes, tree_hashes, written, written_below}
use casfa.Controller.RoundTrip.{IsKeyProvider, NoCollision, In}
use casfa.Controller.Read.{read_file, open_file_stream}
use casfa.Controller.Files.{read-write_file}
use casfa.Controller.Stream.{or_empty, joined, read_file-stream}
use casfa.Storage.{Key}
use casfa.Storage.Memory.{Table}
use casfa.Storage.Memory.Laws.{memory_storage}

-- A key that tells nodes of different lengths apart.
abbrev toy_key : Bytes → Bytes
toy_key b = length b % 256 ∷ replicate 15 0

toy_key-IsKeyProvider : IsKeyProvider toy_key
toy_key-IsKeyProvider = record { size = λ b. refl; bytes = λ b. omega arith }

abbrev exact_exp_log : ℕ → ℕ → Capacity
exact_exp_log depth space = whole (16 * (space / 16) ^ depth)

abbrev file : Bytes
file = replicate 40 7

abbrev two_levels : LayoutNode
two_levels = layout 2 16 (cons (layout 1 24 nil) nil)

file-layout : compute_layout exact_exp_log 40 48 ≡ ok two_levels
unfolding compute_layout compute_depth compute_layout_at_depth
file-layout = refl

plain : IsContentType ascii_decoder (97 ∷ [])
plain = record { short = omega arith; no_zero = omega arith; valid = refl }

-- The keys of two nodes of different lengths.
two_apart :
    (x y : Bytes)
    → length x % 256 ≢ length y % 256
    → (a b : Bytes) → In a (x ∷ y ∷ [])
    → In b (x ∷ y ∷ [])
    → toy_key a ≡ toy_key b
    → a ≡ b
two_apart x y h a b (inl u) (inl v) e = cc
two_apart x y h a b (inl u) (inr (inl v)) e = absurd (h (rw (← u, ← v) (ap (λ t. get_or t 0 0) e)))
two_apart x y h a b (inr (inl u)) (inl v) e =
    absurd (h (sym (rw (← u, ← v) (ap (λ t. get_or t 0 0) e))))
two_apart x y h a b (inr (inl u)) (inr (inl v)) e = cc
two_apart x y h a b (inl u) (inr (inr v)) e = elim v [ ]
two_apart x y h a b (inr (inl u)) (inr (inr v)) e = elim v [ ]
two_apart x y h a b (inr (inr u)) m e = elim u [ ]

file-NoCollision : NoCollision toy_key (written toy_key file (97 ∷ []) 40 two_levels 0 true)
unfolding written written_below tree_bytes tree_hashes casfa.Core.Header.encode_header
    casfa.Core.Words.u32_bytes
file-NoCollision = two_apart _ _ (omega arith)

read-write_file_example :
    (r : WriteResult) × ((write_file memory_storage toy_key exact_exp_log
        (some 48)
        file
        (97 ∷ [])
        []).0
      ≡ ok r)
    × (r.size ≡ 40)
    × (read_file memory_storage ascii_decoder
          (write_file memory_storage toy_key exact_exp_log (some 48) file (97 ∷ []) []).1
          2
          r.key
        ≡ ok (some file))
read-write_file_example =
    read-write_file memory_storage toy_key ascii_decoder toy_key-IsKeyProvider exact_exp_log 2
      (omega arith) (omega arith) [] file (97 ∷ []) two_levels plain (omega arith) (omega arith)
      (omega arith) file-layout file-NoCollision

abbrev key_of_file : Key
key_of_file = hash_to_key (toy_key (tree_bytes toy_key file (97 ∷ []) 40 two_levels 0 true))

abbrev state_with_file : Table
state_with_file = (write_file memory_storage toy_key exact_exp_log (some 48) file (97 ∷ []) []).1

read_file-stream_example :
    or_empty (read_file memory_storage ascii_decoder state_with_file 10 key_of_file)
    ≡ joined (open_file_stream memory_storage ascii_decoder state_with_file 10 key_of_file)
read_file-stream_example =
    read_file-stream memory_storage ascii_decoder state_with_file 10 key_of_file
