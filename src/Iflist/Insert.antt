-- ===== src/Iflist/Insert.antt =====
-- Adding and removing interfaces in src/csp_iflist.c.
use libcsp.Core.{◌≡◌, ◌∙◌, refl, ap}
use libcsp.Core.{false, ◌==◌, ==_self, [], ◌∷◌, ◌++◌, All}
use libcsp.Packet.{Iface}
use libcsp.Iflist.{Interfaces, same_name, name_max, cut_behind, insert_last, iflist_add}
use libcsp.Iflist.{iflist_remove}

-- The interface is not in the list, and neither is its name.
abbrev pub IsNew : Iface → Interfaces → Type 0
IsNew ifc ifs =
    All (λ i. ((i.handle == ifc.handle) ≡ false) × (same_name name_max ifc.name i.name ≡ false)) ifs

cut-IsNew : (ifc : Iface) (ifs : Interfaces) → IsNew ifc ifs → cut_behind ifs ifc.handle ≡ ifs
unfolding cut_behind
cut-IsNew ifc [] n = refl
cut-IsNew ifc (i ∷ is) n = rw (n.0.0) (ap (λ t. i ∷ t) (cut-IsNew ifc is n.1))

insert-IsNew :
    (ifc : Iface) (ifs : Interfaces) → IsNew ifc ifs → insert_last ifs ifc ≡ ifs ++ (ifc ∷ [])
unfolding insert_last
insert-IsNew ifc [] n = refl
insert-IsNew ifc (i ∷ is) n = rw (n.0.0, n.0.1) (ap (λ t. i ∷ t) (insert-IsNew ifc is n.1))

remove-snoc :
    (ifc : Iface) (ifs : Interfaces)
    → IsNew ifc ifs
    → iflist_remove (ifs ++ (ifc ∷ [])) ifc.handle ≡ ifs
unfolding iflist_remove
remove-snoc ifc [] n = rw (==_self ifc.handle) refl
remove-snoc ifc (i ∷ is) n = rw (n.0.0) (ap (λ t. i ∷ t) (remove-snoc ifc is n.1))

-- A new interface with a new name comes last, and removing it gives the list from before.
pub iflist_remove-iflist_add :
    (ifs : Interfaces) (ifc : Iface)
    → IsNew ifc ifs
    → (iflist_add ifs ifc ≡ ifs ++ (ifc ∷ []))
      × (iflist_remove (iflist_add ifs ifc) ifc.handle ≡ ifs)
unfolding iflist_add
iflist_remove-iflist_add ifs ifc n =
    (added, ap (λ t. iflist_remove t ifc.handle) added ∙ remove-snoc ifc ifs n)
  where
    added : insert_last (cut_behind ifs ifc.handle) ifc ≡ ifs ++ (ifc ∷ [])
    added = ap (λ t. insert_last t ifc) (cut-IsNew ifc ifs n) ∙ insert-IsNew ifc ifs n

cut-again :
    (before after : Interfaces) (ifc : Iface)
    → IsNew ifc before
    → cut_behind (before ++ (ifc ∷ after)) ifc.handle ≡ before ++ (ifc ∷ [])
unfolding cut_behind
cut-again [] after ifc n = rw (==_self ifc.handle) refl
cut-again (i ∷ before) after ifc n = rw (n.0.0) (ap (λ t. i ∷ t) (cut-again before after ifc n.1))

insert-again :
    (before : Interfaces) (ifc : Iface)
    → IsNew ifc before
    → insert_last (before ++ (ifc ∷ [])) ifc ≡ before ++ (ifc ∷ [])
unfolding insert_last
insert-again [] ifc n = rw (==_self ifc.handle) refl
insert-again (i ∷ before) ifc n = rw (n.0.0, n.0.1) (ap (λ t. i ∷ t) (insert-again before ifc n.1))

-- Adding an interface that is in the list already, and the first of its name, takes every interface
-- behind it out of the list.
pub iflist_add-again :
    (before after : Interfaces) (ifc : Iface)
    → IsNew ifc before
    → iflist_add (before ++ (ifc ∷ after)) ifc ≡ before ++ (ifc ∷ [])
unfolding iflist_add
iflist_add-again before after ifc n =
    ap (λ t. insert_last t ifc) (cut-again before after ifc n) ∙ insert-again before ifc n
