-- ===== src/Chunking/Documents/Rebase.antt =====
-- Slices, and documents that are rebased from a part of a text to the whole, keep their place.
use mathlib.Core.List.{append_assoc}
use chatvector_ai.Chunking.Documents.{
  index, Metadata, Document, slice, merge_metadata, start_of, assign_given, merge_each, IsAt,
  IsChunk, Splitter, IsSplitter, rebase_documents, split_with_recursive_splitter,
}
use chatvector_ai.Prelude.{
  ◌≡◌, refl, sym, ◌≤◌, ◌-◌, arith, ℕ, ◌+◌, ◌++◌, Option, none, some, List, [], ◌∷◌, length,
  length-append, All, take, drop, min, take-append-drop, length-take, length-drop,
}
use chatvector_ai.Prelude.Dict.{
  IsDict, lookup, IsDict-assign, IsDict-update, lookup-assign, lookup-update,
}

pub length-slice : (s : List ℕ) (a b : ℕ) → length (slice s a b) ≡ min (b - a) (length s - a)
unfolding slice
length-slice s a b = omega (arith, length-take (b - a) (drop a s), length-drop a s)

pub slice-IsAt : (s : List ℕ) (a b : ℕ) → a ≤ length s → IsAt s a (slice s a b)
unfolding slice
slice-IsAt s a b h = record {
  before = take a s;
  after = drop (b - a) (drop a s);
  spelled = rw (take-append-drop (b - a) (drop a s)) (sym (take-append-drop a s));
  counted = omega (arith, length-take a s);
}

pub IsAt-trans :
    {whole part content : List ℕ} {n k : ℕ}
    → IsAt whole n part
    → IsAt part k content
    → IsAt whole (n + k) content
IsAt-trans {content = content} outer inner = record {
  before = outer.before ++ inner.before;
  after = inner.after ++ outer.after;
  spelled = simp (outer.spelled, inner.spelled, append_assoc);
  counted = omega (arith, length-append outer.before inner.before, outer.counted, inner.counted);
}

-- What `_merge_metadata` puts in.
module _ (base extra : Metadata) where
  pub merge_metadata-IsDict :
      (start : Option ℕ) (heading : Option (List ℕ))
      → IsDict base
      → IsDict (merge_metadata base extra start heading)
  unfolding merge_metadata assign_given
  merge_metadata-IsDict none none h = IsDict-update base extra h
  merge_metadata-IsDict (some n) none h = IsDict-assign _ _ _ (IsDict-update base extra h)
  merge_metadata-IsDict none (some s) h = IsDict-assign _ _ _ (IsDict-update base extra h)
  merge_metadata-IsDict (some n) (some s) h =
      IsDict-assign _ _ _ (IsDict-assign _ _ _ (IsDict-update base extra h))

  pub start_index-merge_metadata :
      (n : ℕ) (heading : Option (List ℕ))
      → lookup "start_index" (merge_metadata base extra (some n) heading) ≡ some (index n)
  unfolding merge_metadata assign_given
  start_index-merge_metadata n none = rw lookup-assign refl
  start_index-merge_metadata n (some s) = rw (lookup-assign, lookup-assign) refl

  start_index-merge_extra :
      {n : ℕ}
      → IsDict extra
      → lookup "start_index" extra ≡ some (index n)
      → lookup "start_index" (merge_metadata base extra none none) ≡ some (index n)
  unfolding merge_metadata assign_given
  start_index-merge_extra h e = rw (lookup-update "start_index" base extra h, e) refl

pub start_of_marked :
    (metadata : Metadata) {n : ℕ}
    → lookup "start_index" metadata ≡ some (index n)
    → start_of metadata ≡ n
unfolding start_of
start_of_marked metadata e = rw (e, start_of) refl

merge_each-IsChunk :
    (size : ℕ) (whole : List ℕ) (metadata : Metadata) (docs : List Document)
    → IsDict metadata
    → All (IsChunk size whole) docs
    → All (IsChunk size whole) (merge_each metadata docs)
unfolding merge_each
merge_each-IsChunk size whole metadata [] h all = tt
merge_each-IsChunk size whole metadata (doc ∷ docs) h (c, all) = (
  record {
    position = c.position;
    marked = start_index-merge_extra metadata doc.metadata c.dict c.marked;
    stands = c.stands;
    fits = c.fits;
    dict = merge_metadata-IsDict metadata doc.metadata none none h;
  },
  merge_each-IsChunk size whole metadata docs h all,
)

pub split-IsChunk :
    {s : Splitter} (whole : List ℕ) (size overlap : ℕ) (metadata : Metadata)
    → IsSplitter s
    → IsDict metadata
    → All (IsChunk size whole) (split_with_recursive_splitter s whole size overlap metadata)
unfolding split_with_recursive_splitter
split-IsChunk {s} whole size overlap metadata lawful h =
    merge_each-IsChunk size whole metadata _ h (lawful.creates_chunks size overlap whole metadata h)

-- Chunks of a part that stands at `n` become chunks of the whole.
pub rebase_documents-IsChunk :
    (size : ℕ) {n : ℕ} {whole part : List ℕ} (docs : List Document) (metadata : Metadata)
    (heading : Option (List ℕ))
    → IsAt whole n part
    → IsDict metadata
    → All (IsChunk size part) docs
    → All (IsChunk size whole) (rebase_documents docs n metadata heading)
unfolding rebase_documents
rebase_documents-IsChunk size [] metadata heading place h all = tt
rebase_documents-IsChunk size {n = n} (doc ∷ docs) metadata heading place h (c, all) = (
  record {
    position = n + c.position;
    marked =
        rw (start_index-merge_metadata metadata doc.metadata (n + start_of doc.metadata) heading)
          (rw (start_of_marked doc.metadata c.marked) refl);
    stands = IsAt-trans place c.stands;
    fits = c.fits;
    dict = merge_metadata-IsDict metadata doc.metadata (some (n + start_of doc.metadata)) heading h;
  },
  rebase_documents-IsChunk size docs metadata heading place h all,
)
