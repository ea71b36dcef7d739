-- ===== src/Controller/Files.antt =====
-- `readFile` after `writeFile`, and `openFileStream` against `readFile`.
use casfa.Base.{
  ℕ, ◌+◌, ◌*◌, ◌≤◌, ◌<◌, ◌≡◌, refl, ap, ◌∙◌, true, some, length, Bytes, ok, arith, take-all,
}
use casfa.Core.Text.{Text, TextDecoder}
use casfa.Core.Node.{CasNode}
use casfa.Core.Node.Fields.{IsContentType}
use casfa.Core.Topology.{
  Capacity, LayoutNode, max_safe_size, compute_layout, compute_layout_size, count_layout_nodes,
}
use casfa.Core.Topology.Depth.{node_limit_of}
use casfa.Core.Topology.Layout.{compute_layout-Holds, Fits, height}
use casfa.Controller.{hash_to_key}
use casfa.Controller.Write.{WriteResult, write_file}
use casfa.Controller.Tree.{tree_bytes, written, put_all, upload_file_node_lem}
use casfa.Controller.RoundTrip.{IsKeyProvider, NoCollision, get-put_all}
use casfa.Controller.ReadBack.{read_tree}
use casfa.Controller.Read.{has_content, get_node, read_file_node_data, read_file}
use casfa.Storage.{Key, StorageProvider}

module _ (storage : StorageProvider) (compute_key : Bytes → Bytes) where
  -- A write whose content type fits and whose layout is found puts the nodes of the tree that the layout
  -- describes, children first, and returns the key of its root, the size and the number of nodes.
  pub write_file_lem :
      (exp_log : ℕ → ℕ → Capacity) (limit : ℕ) (s : storage.State) (content : Bytes)
      (content_type : Text) (l : LayoutNode)
      → length content_type ≤ 56
      → compute_layout exp_log (length content) limit ≡ ok l
      → write_file storage compute_key exp_log (some limit) content content_type s ≡ (
        ok (record {
          key =
              hash_to_key (
                compute_key
                  (tree_bytes compute_key content content_type (length content) l 0 true));
          size = length content;
          node_count = count_layout_nodes l;
        }),
        put_all storage compute_key s
            (written compute_key content content_type (length content) l 0 true),
      )
  unfolding write_file
  write_file_lem exp_log limit s content content_type l short e = rw e (
      rw
        (upload_file_node_lem storage compute_key content content_type (length content) short s l 0
          true)
        refl)

  read_found_lem :
      (text : TextDecoder) (s : storage.State) (fuel : ℕ) (key : Key) (node : CasNode)
      (bytes : Bytes)
      → get_node storage text s key ≡ ok (some node)
      → has_content node.kind ≡ true
      → read_file_node_data storage text s fuel node ≡ ok bytes
      → read_file storage text s fuel key ≡ ok (some bytes)
  unfolding read_file
  read_found_lem text s fuel key node bytes g k r = rw g (rw k (rw r refl))

  module _ (text : TextDecoder) (provider : IsKeyProvider compute_key) (exp_log : ℕ → ℕ → Capacity)
      (k : ℕ) (wide : 2 ≤ k) (narrow : 16 * k + 64 < 4294967296) where
    -- A file that was written is read back byte for byte under the key that the write returned, from
    -- whatever state of the storage, and two levels of recursion are enough for it: if the node limit is
    -- 16 + 16 k bytes with 2 ≤ k and 16 k + 64 below 2 ^ 32, the size is at most 2 ^ 53 - 1, at most
    -- 16 k ^ 2 and at most the capacity that the code computes for depth 2 (the files of at most two
    -- levels), the content type is valid, the keys are 16 bytes, and no two different nodes of the file
    -- have the same key. Nothing is assumed of how capacities are rounded.
    pub read-write_file :
        (s : storage.State) (content : Bytes) (content_type : Text) (l : LayoutNode)
        → IsContentType text content_type
        → length content ≤ max_safe_size
        → length content ≤ 16 * (k * k)
        → length content ≤ (exp_log 2 (16 * k)).floor
        → compute_layout exp_log (length content) (node_limit_of k) ≡ ok l
        → NoCollision compute_key
            (written compute_key content content_type (length content) l 0 true)
        → (r : WriteResult) × ((write_file storage compute_key exp_log
              (some (node_limit_of k))
              content
              content_type
              s).0
            ≡ ok r)
          × (r.size ≡ length content)
          × (read_file storage text
                (write_file storage compute_key exp_log
                  (some (node_limit_of k))
                  content
                  content_type
                  s).1
                2
                r.key
              ≡ ok (some content))
    read-write_file s content content_type l v hm ht hc e apart =
        let size = length content in
        let h = compute_layout-Holds exp_log k wide size hm ht hc in
        let same : h.node ≡ l = cc (h.found, e) in
        let fits : Fits (16 * k) l = rw same at h.fits in
        let shallow : height l ≤ 2 = rw same at h.shallow in
        let whole : compute_layout_size l ≡ size = rw same at h.exact_size in
        let nodes = written compute_key content content_type size l 0 true in
        let done = write_file_lem exp_log (node_limit_of k) s content content_type l v.short e in
        let back =
          read_tree storage text compute_key provider content content_type size (16 * k) v
            (omega arith) narrow (put_all storage compute_key s nodes) l 0 true 2 shallow fits
            (λ b m. get-put_all storage compute_key provider s b nodes apart m) in
        let bytes : read_file_node_data storage text (put_all storage compute_key s nodes) 2
              back.node
            ≡ ok content =
          back.reads ∙ ap ok (rw whole (take-all size content (omega arith))) in
        rw done
          (_, refl, refl, read_found_lem text _ 2 _ back.node content back.found back.kind bytes)
