-- ===== src/System/Upserted.antt =====
-- The invariant across the extraction's `persist`: tokens are inserted first, and the manifest
-- catches up when the document is advanced.
use sayari.Prelude.{
  ℕ, ◌+◌, ◌≡◌, refl, sym, ◌∙◌, inl, inr, false, Option, some, List, [], ◌∷◌, ◌++◌, Text, text_eq,
  text_eq_iff, count_where, count_where-append, All-append, arith,
}
use sayari.Domain.{Document, Token, Entity}
use sayari.Domain.Labels.{DocStatus}
use sayari.Store.Documents.{belongs_to}
use sayari.Store.Tokens.{new_token}
use sayari.System.Counts.{
  classified_of, Fenced, Between, Between-append, Between-grow, classified-le,
}
use sayari.System.Invariant.{DocInv, Inv, updated, updated-cases, Fenced-updated}

-- The invariant while the tokens of `id` are written: its total and its completion may lag.
pub record Lagging (id : Text) (docs : Text → Option Document) (ts : List Token) (next : ℕ)
    : Type 0 where
  pub others :
      (j : Text) (doc : Document) → text_eq j id ≡ false → docs j ≡ some doc → DocInv ts j doc
  pub same_id : (doc : Document) → docs id ≡ some doc → doc.id ≡ id
  pub counted :
      (doc : Document)
      → docs id ≡ some doc
      → doc.classified_count ≡ count_where (classified_of id) ts
  pub fenced : Fenced docs ts
  pub ids : Between 0 next ts

module _ (id : Text) (docs : Text → Option Document) (ts : List Token) (next : ℕ) where
  pub Lagging-of_Inv : Inv docs ts next → Lagging id docs ts next
  Lagging-of_Inv v = record {
    others = λ j doc other e. v.documents j doc e;
    same_id = λ doc e. (v.documents id doc e).same_id;
    counted = λ doc e. (v.documents id doc e).counted;
    fenced = v.fenced;
    ids = v.ids;
  }

  -- A conflict inserts nothing, but uses up an id.
  pub Lagging-skip : Lagging id docs ts next → Lagging id docs ts (next + 1)
  Lagging-skip v = record {
    others = v.others;
    same_id = v.same_id;
    counted = v.counted;
    fenced = v.fenced;
    ids = Between-grow 0 next ts v.ids;
  }

  count-new :
      (now run : ℕ) (e : Entity) (j : Text)
      → count_where (classified_of j) (ts ++ new_token next now id run e ∷ [])
        ≡ count_where (classified_of j) ts
  count-new now run e j =
      ground (arith, count_where-append (classified_of j) ts (new_token next now id run e ∷ []))

  count-new_ne :
      (now run : ℕ) (e : Entity) (j : Text)
      → text_eq j id ≡ false
      → count_where (belongs_to j) (ts ++ new_token next now id run e ∷ [])
        ≡ count_where (belongs_to j) ts
  count-new_ne now run e j other = ground (
    arith,
    text_eq_iff j id,
    text_eq_iff id j,
    count_where-append (belongs_to j) ts (new_token next now id run e ∷ []),
  )

  pub Lagging-insert :
      (now : ℕ) (e : Entity) (cur : Document)
      → docs id ≡ some cur
      → Lagging id docs ts next
      → Lagging id docs (ts ++ new_token next now id cur.run_version e ∷ []) (next + 1)
  Lagging-insert now e cur found v = record {
    others = λ j doc other at. record {
      same_id = (v.others j doc other at).same_id;
      total = (v.others j doc other at).total ∙ sym (count-new_ne now cur.run_version e j other);
      counted = (v.others j doc other at).counted ∙ sym (count-new now cur.run_version e j);
      complete = (v.others j doc other at).complete;
    };
    same_id = v.same_id;
    counted = λ doc at. v.counted doc at ∙ sym (count-new now cur.run_version e id);
    fenced = All-append _ ts _ v.fenced ((cur, found, refl), tt);
    ids = Between-append 0 next ts _ refl v.ids;
  }

  -- The manifest catches up.
  pub Inv-advanced :
      (f : Document → Document)
      → ((doc : Document) → (f doc).run_version ≡ doc.run_version)
      → ((doc : Document)
          → ((f doc).id ≡ doc.id)
            × ((f doc).total_tokens ≡ count_where (belongs_to id) ts)
            × ((f doc).classified_count ≡ doc.classified_count)
            × ((f doc).status ≡ DocStatus.completed → count_where (belongs_to id) ts ≡ 0))
      → Lagging id docs ts next
      → Inv (updated id f docs) ts next
  Inv-advanced f same set v = record {
    documents = λ j doc e. elim (updated-cases id f docs j doc e) [
      | inl (here, (old, at, changed)) ↦
          rw (here, changed)
            (record {
              same_id = (set old).0 ∙ v.same_id old at;
              total = (set old).1;
              counted = (set old).2 ∙ v.counted old at;
              complete = λ done. ground (arith, set old, v.counted old at, classified-le id ts);
            })
      | inr (other, at) ↦ v.others j doc other at
    ];
    fenced = Fenced-updated id f docs ts same v.fenced;
    ids = v.ids;
  }
