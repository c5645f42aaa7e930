-- ===== src/System/Classified.antt =====
-- The invariant across `apply`: a token turns CLASSIFIED and its document's counter moves with it.
use sayari.Prelude.{
  ℕ, suc, ◌+◌, ◌≤◌, ◌≡◌, sym, ◌∙◌, ◌⊎◌, inl, inr, false, Option, some, List, Text, text_eq,
  text_eq_iff, count_where, arith,
}
use sayari.Domain.{Document, Token, Classification}
use sayari.Domain.Labels.{DocStatus, TokenStatus}
use sayari.Store.Tokens.{find_token}
use sayari.System.Counts.{
  classified_of, Between-update, Fenced-update, count_belongs-update, count_classified-update,
  count_classified-update_ne, classified_tokens, classified-le,
}
use sayari.System.Invariant.{DocInv, Inv, updated, updated-cases, Fenced-updated}

module _ (docs : Text → Option Document) (ts : List Token) (next : ℕ) (v : Inv docs ts next)
    (k now : ℕ) (c : Classification) (tok : Token) (found : find_token k ts ≡ some tok)
    (is_pending : tok.status ≡ TokenStatus.pending) where
  -- The counter moves by one; the status may become COMPLETED if the counter reaches the total.
  pub Inv-classified :
      (f : Document → Document)
      → ((doc : Document) → (f doc).run_version ≡ doc.run_version)
      → ((doc : Document)
          → ((f doc).id ≡ doc.id)
            × ((f doc).total_tokens ≡ doc.total_tokens)
            × ((f doc).classified_count ≡ doc.classified_count + 1))
      → ((doc : Document)
          → docs tok.document_id ≡ some doc
          → (f doc).status ≡ DocStatus.completed
          → (doc.status ≡ DocStatus.completed) ⊎ (doc.total_tokens ≤ doc.classified_count + 1))
      → Inv (updated tok.document_id f docs) (classified_tokens k now c ts) next
  Inv-classified f same counters completes = record {
    documents = λ j doc e. elim (updated-cases tok.document_id f docs j doc e) [
      | inl (here, (old, at, changed)) ↦
          rw (here, changed) (own old at (v.documents tok.document_id old at))
      | inr (other, at) ↦ apart j doc other (v.documents j doc at)
    ];
    fenced = Fenced-updated tok.document_id f docs _ same (Fenced-update k now c docs ts v.fenced);
    ids = Between-update k now c 0 next ts v.ids;
  }
    where
      moved :
          count_where (classified_of tok.document_id) (classified_tokens k now c ts)
          ≡ suc (count_where (classified_of tok.document_id) ts)
      moved = count_classified-update k now c 0 next ts tok v.ids found is_pending

      own :
          (old : Document)
          → docs tok.document_id ≡ some old
          → DocInv ts tok.document_id old
          → DocInv (classified_tokens k now c ts) tok.document_id (f old)
      own old at h = record {
        same_id = (counters old).0 ∙ h.same_id;
        total = (counters old).1 ∙ h.total ∙ sym (count_belongs-update k now c tok.document_id ts);
        counted = omega (arith, counters old, h.counted, moved);
        complete = λ e. ground (
          arith,
          completes old at e,
          counters old,
          h.complete,
          h.counted,
          h.total,
          moved,
          count_belongs-update k now c tok.document_id ts,
          classified-le tok.document_id (classified_tokens k now c ts),
        );
      }

      apart :
          (j : Text) (doc : Document)
          → text_eq j tok.document_id ≡ false
          → DocInv ts j doc
          → DocInv (classified_tokens k now c ts) j doc
      apart j doc other h = record {
        same_id = h.same_id;
        total = h.total ∙ sym (count_belongs-update k now c j ts);
        counted =
            h.counted
            ∙ sym (
                count_classified-update_ne k now c 0 next ts tok j v.ids found
                  (λ e. ground (arith, text_eq_iff j tok.document_id)));
        complete = h.complete;
      }
