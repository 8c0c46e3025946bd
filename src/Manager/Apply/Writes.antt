-- ===== src/Manager/Apply/Writes.antt =====
-- The single writes of a request, and what they keep.
use mathlib.Core.Path.{subst}
use tzafon_way_point.Prelude.{
  ◌≡◌, refl, sym, ap, ◌∙◌, inl, inr, Option, none, some, In, List, ◌++◌, arith, Option-cases,
  In-append_left, map,
}
use tzafon_way_point.Proto.{Relationship, InstanceDescription, listed}
use tzafon_way_point.Manager.Traits.{relationship_entry, children_entry}
use tzafon_way_point.Manager.Apply.Fields.{Ties, ties, stored_children, stamped, Written}
use tzafon_way_point.Manager.Apply.Later.{Later}

-- The write of an accepted request to its own instance.
pub Written-Later :
    (r d d' : InstanceDescription)
    → d.kill_instance_request ≡ none
    → ((p : Relationship) → r.parent ≡ some p → d.parent ≡ none)
    → Written r (ties d) (ties d')
    → Later d d'
Written-Later r d d' alive free (t, u, v, e) = record {
  created = ap (λ (x : Ties). x.created_timestamp_ms) e;
  kind = ap (λ (x : Ties). x.instance_type) e;
  name = ap (λ (x : Ties). x.instance_id) e;
  parent = λ p h. elim (Option-cases r.parent) [
    | inl no_new ↦ ap (λ (x : Ties). x.parent) e ∙ rw no_new h
    | inr (q, new) ↦ absurd (ground (arith, h, free q new))
  ];
  death = λ q h. absurd (ground (arith, h, alive));
  children = λ c i. subst (λ o. In c (listed o)) (sym (ap (λ (x : Ties). x.children) e)) (kept c i);
}
  where
    kept :
        (c : Relationship)
        → In c (listed d.children)
        → In c (listed (stored_children u r.children d.children))
    kept c i = elim (Option-cases r.children) [
      | inl none_new ↦ rw none_new i
      | inr (cs, new) ↦
          rw new (In-append_left c (listed d.children) (map (stamped u) cs.children) i)
    ]

-- One more parent for an instance that had none, and one more child.
pub Later-adopted :
    (d e : InstanceDescription) (p : Option Relationship)
    → d.parent ≡ none
    → Later d e
    → Later d (record e { parent = p })
Later-adopted d e p free l = record {
  created = l.created;
  kind = l.kind;
  name = l.name;
  parent = λ q h. absurd (ground (arith, h, free));
  death = l.death;
  children = l.children;
}

pub Later-joined :
    (e : InstanceDescription) (cs : List Relationship)
    → Later e (record e { children = some (record { children = listed e.children ++ cs }) })
Later-joined e cs = record {
  created = refl;
  kind = refl;
  name = refl;
  parent = λ q h. h;
  death = λ q h. h;
  children = λ c i. In-append_left c (listed e.children) cs i;
}
