-- ===== src/Controller/Stream.antt =====
-- `openFileStream` delivers the bytes of `readFile`.
use casfa.Base.{
  ℕ, zero, suc, ◌≡◌, refl, sym, ap, Option, none, some, List, [], ◌∷◌, ◌++◌, Bytes, Result, ok, err,
  arith, concat, concat-append, ◌>>=◌, Bool-cases, inl, inr,
}
use casfa.Core.Text.{TextDecoder}
use casfa.Core.Node.{CasNode}
use casfa.Controller.{ControllerError, hash_to_key}
use casfa.Core.Node.{children_of}
use casfa.Controller.Read.{
  has_content, content_part, content_chunk, get_node, visit, read_each, read_file_node_data,
  read_file, stream_file_node_data, open_file_stream, read_found, stream_found,
}
use casfa.Storage.{Key, StorageProvider}
use mathlib.Core.Path.{fun_ext}

-- The bytes of a stream of chunks, or the error that ended it.
abbrev pub joined : Result ControllerError (List Bytes) → Result ControllerError Bytes
joined (ok chunks) = ok (concat chunks)
joined (err e) = err e

-- What a client that collects the chunks has, beside what `readFile` returns.
abbrev pub or_empty : Result ControllerError (Option Bytes) → Result ControllerError Bytes
or_empty (ok none) = ok []
or_empty (ok (some bytes)) = ok bytes
or_empty (err e) = err e

or_empty-some : (r : Result ControllerError Bytes) → or_empty (do bytes ← r; ok (some bytes)) ≡ r
or_empty-some (ok bytes) = refl
or_empty-some (err e) = refl

concat-chunk : (o : Option Bytes) → concat (content_chunk o) ≡ concat (content_part o)
concat-chunk none = refl
concat-chunk (some []) = refl
concat-chunk (some (b ∷ bs)) = refl

module _ (storage : StorageProvider) (text : TextDecoder) (s : storage.State) where
  visit-joined :
      (f : CasNode → Result ControllerError (List Bytes)) (found : Option CasNode)
      → visit storage text s (λ n. joined (f n)) found ≡ joined (visit storage text s f found)
  visit-joined f none = refl
  visit-joined f (some node) = ground arith

  joined-append :
      (a b : Result ControllerError (List Bytes))
      → (do x ← joined a; y ← joined b; ok (x ++ y)) ≡ joined (do x ← a; y ← b; ok (x ++ y))
  joined-append (ok x) (ok y) = ap ok (sym (concat-append x y))
  joined-append (ok x) (err e) = refl
  joined-append (err e) b = refl

  -- One round of the loop, for whatever the look-up of the child gives.
  round-joined :
      (f : CasNode → Result ControllerError (List Bytes)) (a : Result ControllerError Bytes)
      (b : Result ControllerError (List Bytes)) (r : Result ControllerError (Option CasNode))
      → a ≡ joined b
      → (do found ← r; x ← visit storage text s (λ n. joined (f n)) found; y ← a; ok (x ++ y))
        ≡ joined (do found ← r; x ← visit storage text s f found; y ← b; ok (x ++ y))
  round-joined f a b (err e) h = refl
  round-joined f a b (ok found) h =
      rw (visit-joined f found, h) (joined-append (visit storage text s f found) b)

  read_each-joined :
      (f : CasNode → Result ControllerError (List Bytes)) (hashes : List Bytes)
      → read_each storage text s (λ n. joined (f n)) hashes
        ≡ joined (read_each storage text s f hashes)
  unfolding read_each
  read_each-joined f [] = refl
  read_each-joined f (hash ∷ hashes) =
      round-joined f _ (read_each storage text s f hashes)
        (get_node storage text s (hash_to_key hash)) (read_each-joined f hashes)

  node-joined :
      (o : Option Bytes) (b : Result ControllerError (List Bytes))
      → (do below ← joined b; ok (concat (content_part o) ++ below))
        ≡ joined (do below ← b; ok (content_chunk o ++ below))
  node-joined o (err e) = refl
  node-joined o (ok chunks) =
      ap ok (rw (← concat-chunk o) (sym (concat-append (content_chunk o) chunks)))

  data-joined :
      (fuel : ℕ) (node : CasNode)
      → read_file_node_data storage text s fuel node
        ≡ joined (stream_file_node_data storage text s fuel node)
  unfolding read_file_node_data stream_file_node_data
  data-joined zero node = refl
  data-joined (suc fuel) node = rw (fun_ext (data-joined fuel)) (
      rw (read_each-joined (stream_file_node_data storage text s fuel) (children_of node.children))
        (node-joined node.content _))

  found-joined :
      (fuel : ℕ) (r : Result ControllerError (Option CasNode))
      → or_empty (do found ← r; read_found storage text s fuel found)
        ≡ joined (do found ← r; stream_found storage text s fuel found)
  found-joined fuel (err e) = refl
  found-joined fuel (ok none) = refl
  found-joined fuel (ok (some node)) = elim (Bool-cases (has_content node.kind)) [
    | inl e ↦ rw e (
        rw (data-joined fuel node)
          (or_empty-some (joined (stream_file_node_data storage text s fuel node))))
    | inr e ↦ rw e refl
  ]

  -- The chunks of the stream of a key are together what `readFile` returns for it, errors included, and
  -- there are none where `readFile` finds no file.
  pub read_file-stream :
      (fuel : ℕ) (key : Key)
      → or_empty (read_file storage text s fuel key)
        ≡ joined (open_file_stream storage text s fuel key)
  unfolding read_file open_file_stream
  read_file-stream fuel key = found-joined fuel (get_node storage text s key)
