-- ===== src/Retrieval/Rrf.antt =====
-- retrieval/rrf.py: `rrf_fuse_rankings`. `add` is the addition of floats, and `reciprocal n` is 1.0 / n.
use Prim.Native.String.{compare}
use Prim.Native.Nat.{Ordering}
use ecommerce_after_sales_sy.Prelude.{
  ℕ, suc, ◌+◌, String, str_eq, Bool, true, false, not, ◌&&◌, ◌||◌, List, [], ◌∷◌, ◌++◌, take, ◌==◌,
  if◌then◌else◌,
}
use ecommerce_after_sales_sy.Python.Text.{mem}
use ecommerce_after_sales_sy.Python.Value.{Value, get, get_default}
use ecommerce_after_sales_sy.Python.Result.{Result, ok, raise, value_error, ◌>>=◌}
use ecommerce_after_sales_sy.Python.Runtime.{Runtime}
use ecommerce_after_sales_sy.Python.Convert.{text}
use ecommerce_after_sales_sy.Consultation.Ports.{is_null}

-- An entry of `merged`, with the fields that are added to its hit; `key` is its chunk_id as a text,
-- and `rank` is 0 until the items are ranked.
pub record FusedItem (F : Type 0) : Type 0 where
  pub key : String
  pub hit : Value F
  pub rrf_score : F
  pub query_channels : List ℕ
  pub query_ranks : List (ℕ × ℕ)
  pub rank : ℕ

module _ {F : Type 0} ⦃r : Runtime F⦄ where
  -- `hit.get("chunk_id", hit.get("id"))`, as a text
  abbrev pub chunk_id : Value F → Result String
  chunk_id hit =
      let raw = get_default "chunk_id" hit (get "id" hit) in
      if is_null raw then raise (value_error "hit is missing chunk_id") else ok (text raw)

  abbrev pub fresh_item : String → Value F → FusedItem F
  fresh_item key hit = record {
    key = key;
    hit = hit;
    rrf_score = r.nought;
    query_channels = [];
    query_ranks = [];
    rank = 0;
  }

  -- `merged.setdefault(key, item)`, with what is done to the item.
  unfoldable pub update_item :
      (FusedItem F → FusedItem F) → FusedItem F → List (FusedItem F) → List (FusedItem F)
  update_item f item [] = f item ∷ []
  update_item f item (x ∷ xs) =
      if str_eq x.key item.key then f x ∷ xs else x ∷ update_item f item xs

  module _ (add : F → F → F) (reciprocal : ℕ → F) (k : ℕ) where
    -- What the query's rank adds; the channel is the query's number.
    abbrev pub count_rank : ℕ → ℕ → FusedItem F → FusedItem F
    count_rank query rank item = record {
      key = item.key;
      hit = item.hit;
      rrf_score = add item.rrf_score (reciprocal (k + rank));
      query_channels = item.query_channels ++ query ∷ [];
      query_ranks = item.query_ranks ++ (query, rank) ∷ [];
      rank = item.rank;
    }

    abbrev pub merge_hit : ℕ → ℕ → String → Value F → List (FusedItem F) → List (FusedItem F)
    merge_hit query rank key hit merged =
        update_item (count_rank query rank) (fresh_item key hit) merged

    -- The loop over the hits of a query; a chunk that comes again is passed over.
    unfoldable pub merge_ranking :
        ℕ → List String → ℕ → List (Value F) → List (FusedItem F) → Result (List (FusedItem F))
    unfolding update_item mem
    merge_ranking query seen rank [] merged = ok merged
    merge_ranking query seen rank (hit ∷ hits) merged = do
      key ← chunk_id hit
      let again = mem key seen
      merge_ranking query (if again then seen else key ∷ seen) (if again then rank else suc rank)
          hits (if again then merged else merge_hit query (suc rank) key hit merged)

    unfoldable pub merge_rankings :
        ℕ → List (List (Value F)) → List (FusedItem F) → Result (List (FusedItem F))
    unfolding merge_ranking
    merge_rankings query [] merged = ok merged
    merge_rankings query (hits ∷ rankings) merged = do
      next ← merge_ranking query [] 0 hits merged
      merge_rankings (suc query) rankings next

  -- `(-a["rrf_score"], a["chunk_id"]) < (-b["rrf_score"], b["chunk_id"])`
  abbrev pub comes_before : FusedItem F → FusedItem F → Bool
  comes_before a b =
      r.lt b.rrf_score a.rrf_score
      || (not (r.lt a.rrf_score b.rrf_score)
          && (elim (compare a.key b.key) [ Ordering.lt ↦ true | _ ↦ false ]))

  unfoldable pub insert_item : FusedItem F → List (FusedItem F) → List (FusedItem F)
  insert_item x [] = x ∷ []
  insert_item x (y ∷ ys) = if comes_before x y then x ∷ y ∷ ys else y ∷ insert_item x ys

  unfoldable pub sort_items : List (FusedItem F) → List (FusedItem F)
  unfolding insert_item
  sort_items [] = []
  sort_items (x ∷ xs) = insert_item x (sort_items xs)

  -- `item["rank"] = rank`
  unfoldable pub number_items : ℕ → List (FusedItem F) → List (FusedItem F)
  number_items rank [] = []
  number_items rank (x ∷ xs) =
      record {
        key = x.key;
        hit = x.hit;
        rrf_score = x.rrf_score;
        query_channels = x.query_channels;
        query_ranks = x.query_ranks;
        rank = rank;
      }
      ∷ number_items (suc rank) xs

  -- A negative k, which raises, and a negative limit are no natural numbers.
  unfoldable pub rrf_fuse_rankings :
      (F → F → F) → (ℕ → F) → ℕ → ℕ → List (List (Value F)) → Result (List (FusedItem F))
  unfolding merge_rankings sort_items number_items
  rrf_fuse_rankings add reciprocal k limit rankings = if limit == 0 then ok [] else (do
    merged ← merge_rankings add reciprocal k 1 rankings []
    ok (number_items 1 (take limit (sort_items merged))))
