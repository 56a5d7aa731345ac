-- ===== src/Redis/Messages/RoundTrip.antt =====
-- The fields of a message, as XADD sends them and as XREADGROUP gives them back.
use retail_ops_microservices.Base.{String, List, [], ◌∷◌, ◌++◌, ◌≡◌, ◌≢◌, refl, sym, arith, eq_iff}
use retail_ops_microservices.Base.Exec.{ok}
use retail_ops_microservices.Base.Rows.{All}
use retail_ops_microservices.Workflow.{Fields}
use retail_ops_microservices.Base.Utf8.{encode}
use retail_ops_microservices.Base.Utf8.RoundTrip.{decode-encode}
use retail_ops_microservices.Redis.Reader.{RedisValues, bytes}
use retail_ops_microservices.Redis.Reader.RoundTrip.{bulk_strings}
use retail_ops_microservices.Redis.Messages.{set_field, as_text, add_pairs, field_pairs_to_dict}
use mathlib.Core.List.{append_assoc, append-nil}

-- The keys are all different.
abbrev pub DistinctKeys : Fields → Type 0
DistinctKeys [] = Unit
DistinctKeys ((k, v) ∷ fields) = All (λ f. f.0 ≢ k) fields × DistinctKeys fields

-- Keys and values in turn.
abbrev pub flat : Fields → List String
flat [] = []
flat ((k, v) ∷ fields) = k ∷ v ∷ flat fields

set_field_new :
    (k v : String) (fields : Fields)
    → All (λ f. f.0 ≢ k) fields
    → set_field k v fields ≡ fields ++ ((k, v) ∷ [])
set_field_new k v [] h = refl
set_field_new k v ((j, w) ∷ fields) (hj, h) = ground (arith, eq_iff j k, set_field_new k v fields h)

abbrev Apart : Fields → Fields → Type 0
Apart [] done = Unit
Apart ((k, v) ∷ fields) done = All (λ f. f.0 ≢ k) done × Apart fields done

Apart-nil : (fields : Fields) → Apart fields []
Apart-nil [] = tt
Apart-nil ((k, v) ∷ fields) = (tt, Apart-nil fields)

All-snoc :
    {A : Type 0} (P : A → Type 0) (xs : List A) (x : A) → All P xs → P x → All P (xs ++ (x ∷ []))
All-snoc P [] x h p = (p, tt)
All-snoc P (y ∷ xs) x h p = (h.0, All-snoc P xs x h.1 p)

Apart-snoc :
    (k v : String) (fields done : Fields)
    → All (λ f. f.0 ≢ k) fields
    → Apart fields done
    → Apart fields (done ++ ((k, v) ∷ []))
Apart-snoc k v [] done h a = tt
Apart-snoc k v ((j, w) ∷ fields) done (hj, h) (a, b) =
    (All-snoc (λ f. f.0 ≢ j) done (k, v) a (λ e. hj (sym e)), Apart-snoc k v fields done h b)

module _ (repr : RedisValues → String) where
  as_text-encode : (t : String) → as_text repr (bytes (encode t)) ≡ ok t
  unfolding as_text
  as_text-encode t = rw (decode-encode t) refl

  add_pairs-flat :
      (fields done : Fields)
      → DistinctKeys fields
      → Apart fields done
      → add_pairs repr done (bulk_strings (flat fields)) ≡ ok (done ++ fields)
  unfolding add_pairs
  add_pairs-flat [] done d a = rw (append-nil done) refl
  add_pairs-flat ((k, v) ∷ fields) done (new, d) (apart, rest) =
      rw
        (
          as_text-encode v,
          as_text-encode k,
          set_field_new k v done apart,
          add_pairs-flat fields (done ++ ((k, v) ∷ [])) d (Apart-snoc k v fields done new rest),
          append_assoc done ((k, v) ∷ []) fields,
        )
        refl

  -- Fields with different keys, sent as the bulk strings of keys and values in turn, are decoded
  -- to the same fields in the same order.
  pub field_pairs_to_dict-flat :
      (fields : Fields)
      → DistinctKeys fields
      → field_pairs_to_dict repr (bulk_strings (flat fields)) ≡ ok fields
  unfolding field_pairs_to_dict
  field_pairs_to_dict-flat fields d = add_pairs-flat fields [] d (Apart-nil fields)
