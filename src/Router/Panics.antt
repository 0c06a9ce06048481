-- ===== src/Router/Panics.antt =====
-- What internal/repo/router/router.go does with the router that `New` builds.
use text.Mathlib.Text.{starts_with}
use Prim.Native.String.{◌++◌}
use gophkeeper.Base.{
  ◌≡◌, ◌≢◌, Bool, ◌||◌, ◌⊎◌, inl, inr, Bool-cases, Option-cases, Option, none, some, arith, str_eq,
  eq_iff, if◌then◌else◌,
}
use gophkeeper.Base.Go.{Error, new, wrap, err, panic, ℤ, mapped}
use gophkeeper.Model.{Bytes, DataType, ObjectLocator, Metadata, data_type_unspecified}
use gophkeeper.Keeper.{ObjectRepo}
use gophkeeper.Router.{new_router, put, get, delete, nil_dereference}

abbrev pub routed : ObjectLocator → Bool
routed loc = starts_with loc "s3" || starts_with loc "pg"

module _ {S : Type 0} (by_type : DataType → Option (ObjectRepo S)) where
  -- With the router that `New` builds, `Get` and `Delete` never reach a store, whatever the map of
  -- stores: a locator that begins with "s3" or "pg" makes both panic on a nil store, and any other
  -- locator makes both return the same error. The state is left as it was.
  pub get_delete_never_routed :
      (loc : ObjectLocator) (s : S)
      → let r = new_router by_type in
        let e = new ("failed to find storage for locator " ++ loc) in
        (get r loc s ≡ (if routed loc then panic nil_dereference else err e, s))
        × (delete r loc s ≡ (if routed loc then panic nil_dereference else err e, s))
  unfolding get delete new_router
  get_delete_never_routed loc s = (ground arith, ground arith)

  -- `Put` goes to the store of the metadata's type, whose error it wraps; with no such store, and
  -- for the unspecified type, no store is called and an error is returned.
  pub put_by_type :
      (m : Metadata) (b : Bytes) (n : ℤ) (sum : Bytes) (s : S)
      → ((o : ObjectRepo S) × (by_type m.data_type ≡ some o)
          × (m.data_type ≢ data_type_unspecified)
          × (put (new_router by_type) m b n sum s
              ≡ mapped (wrap "storage Put") (o.put m b n sum s)))
        ⊎ ((e : Error) × ((by_type m.data_type ≡ none) ⊎ (m.data_type ≡ data_type_unspecified))
            × (put (new_router by_type) m b n sum s ≡ (err e, s)))
  unfolding put new_router
  put_by_type m b n sum s = elim (Bool-cases (str_eq m.data_type data_type_unspecified)) [
    | inl un ↦ inr (new "unknown data type", inr ((eq_iff _ _).0 un), rw un)
    | inr spec ↦ elim (Option-cases (by_type m.data_type)) [
      | inl missing ↦ inr (
        new ("failed to find storage for data type " ++ m.data_type),
        inl missing,
        rw (spec, missing),
      )
      | inr (o, found) ↦ inl (
        o,
        found,
        (λ e. ground (arith, eq_iff m.data_type data_type_unspecified)),
        rw (spec, found),
      )
    ]
  ]
