-- ===== src/Controller/Tree.antt =====
-- The nodes that a file is written as, without the storage: the bytes of each node, and all of them in
-- the order of writing.
use casfa.Base.{
  ℕ, ◌+◌, ◌≤◌, ◌≡◌, refl, Bool, true, false, some, List, [], ◌∷◌, ◌++◌, length, Bytes, ok,
}
use casfa.Core.Text.{Text}
use casfa.Core.Pascal.{slice}
use casfa.Core.Node.RoundTrip.{
  file_node_bytes, successor_node_bytes, encode_file_node_fits, encode_successor_node_lem,
}
use casfa.Core.Topology.{LayoutNode, Layouts, layout, nil, cons, compute_layout_size}
use casfa.Controller.{hash_to_key}
use casfa.Controller.Write.{store_node, upload_chunk, upload_file_node, upload_children}
use casfa.Storage.{StorageProvider}

module _ (compute_key : Bytes → Bytes) (content : Bytes) (content_type : Text) (total : ℕ) where
  abbrev pub chunk_bytes : Bool → Bytes → List Bytes → Bytes
  chunk_bytes true node_data hashes = file_node_bytes node_data content_type total hashes
  chunk_bytes false node_data hashes = successor_node_bytes node_data hashes

  unfoldable mutual
    pub tree_bytes : LayoutNode → ℕ → Bool → Bytes
    tree_bytes (layout depth data_size children) offset is_root =
        chunk_bytes is_root (slice content offset data_size)
          (tree_hashes children (offset + data_size))

    pub tree_hashes : Layouts → ℕ → List Bytes
    tree_hashes nil offset = []
    tree_hashes (cons child rest) offset =
        compute_key (tree_bytes child offset false)
        ∷ tree_hashes rest (offset + compute_layout_size child)

  unfoldable mutual
    pub written : LayoutNode → ℕ → Bool → List Bytes
    written (layout depth data_size children) offset is_root =
        written_below children (offset + data_size)
        ++ (tree_bytes (layout depth data_size children) offset is_root ∷ [])

    pub written_below : Layouts → ℕ → List Bytes
    written_below nil offset = []
    written_below (cons child rest) offset =
        written child offset false ++ written_below rest (offset + compute_layout_size child)

module _ (storage : StorageProvider) (compute_key : Bytes → Bytes) where
  unfoldable pub put_all : storage.State → List Bytes → storage.State
  put_all s [] = s
  put_all s (b ∷ bs) = put_all (storage.put s (hash_to_key (compute_key b)) b) bs

  put_all-nil : (s : storage.State) → put_all s [] ≡ s
  unfolding put_all
  put_all-nil s = refl

  put_all-append :
      (s : storage.State) (xs ys : List Bytes) → put_all s (xs ++ ys) ≡ put_all (put_all s xs) ys
  unfolding put_all
  put_all-append s [] ys = refl
  put_all-append s (x ∷ xs) ys =
      put_all-append (storage.put s (hash_to_key (compute_key x)) x) xs ys

  module _ (content : Bytes) (content_type : Text) (total : ℕ)
      (short : length content_type ≤ 56) where
    upload_chunk_lem :
        (s : storage.State) (is_root : Bool) (node_data : Bytes) (hashes : List Bytes)
        → let bytes = chunk_bytes compute_key content content_type total is_root node_data hashes in
          upload_chunk storage compute_key is_root node_data content_type total hashes s
          ≡ (ok (compute_key bytes), put_all s (bytes ∷ []))
    unfolding upload_chunk store_node put_all
    upload_chunk_lem s true node_data hashes =
        rw (encode_file_node_fits compute_key node_data (some content_type) total hashes short) refl
    upload_chunk_lem s false node_data hashes =
        rw (encode_successor_node_lem compute_key node_data hashes) refl

    -- Uploading puts exactly the nodes of the tree, children first, and returns the hash of the root.
    mutual
      unfolding upload_file_node tree_bytes written

      pub upload_file_node_lem :
          (s : storage.State) (l : LayoutNode) (offset : ℕ) (is_root : Bool)
          → upload_file_node storage compute_key content content_type total l offset is_root s ≡ (
            ok (compute_key (tree_bytes compute_key content content_type total l offset is_root)),
            put_all s (written compute_key content content_type total l offset is_root),
          )
      upload_file_node_lem s (layout depth n children) offset is_root =
          rw (upload_children_lem s children (offset + n)) (
            rw
              (put_all-append s
                (written_below compute_key content content_type total children (offset + n)) _)
              (upload_chunk_lem _ is_root (slice content offset n) _))

      pub upload_children_lem :
          (s : storage.State) (children : Layouts) (offset : ℕ)
          → upload_children storage compute_key content content_type total children offset s ≡ (
            ok (tree_hashes compute_key content content_type total children offset),
            put_all s (written_below compute_key content content_type total children offset),
          )
      upload_children_lem s nil offset = rw (put_all-nil s) refl
      upload_children_lem s (cons child rest) offset =
          rw (upload_file_node_lem s child offset false) (
            rw
              (upload_children_lem
                (put_all s (written compute_key content content_type total child offset false)) rest
                (offset + compute_layout_size child))
              (rw
                (put_all-append s
                  (written compute_key content content_type total child offset false) _)
                refl))
