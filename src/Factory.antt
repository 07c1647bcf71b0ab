-- ===== src/Factory.antt =====
-- The factories of src/request_handler_factory.cc and include/request_handler_factory.h.
use ucla_cs130_googolplex.Prelude.{
  Bytes, if◌then◌else◌, ◌&&◌, [], none, some, ◌≡◌, refl, ◌⊎◌, inl, inr,
}
use ucla_cs130_googolplex.Files.{FileSystem}
use ucla_cs130_googolplex.Config.Arg.{ConfigArg}
use ucla_cs130_googolplex.Handler.{Handler}
use ucla_cs130_googolplex.Crud.Ids.{Table}

-- The classes that derive from `RequestHandlerFactory`.
pub data Kind : Type 0 where
  echo static not_found crud block health text_gen : Kind

-- A factory of a class. Only that of the crud handler has a table; the others leave it empty.
pub record Factory : Type 0 where
  pub kind : Kind
  pub arg : ConfigArg
  pub file_to_id : Table

abbrev pub new_factory : Kind → ConfigArg → Factory
new_factory kind arg = record { kind = kind; arg = arg; file_to_id = [] }

-- What comes of a call that makes something: the thing made, the end of the process by `exit`, or an
-- exception.
pub data Made {ℓ} (A : Type ℓ) : Type ℓ where
  made : A → Made A
  stopped raised : Made A

pub Made-cases {ℓ} :
    {A : Type ℓ} (m : Made A) → ((m ≡ stopped) ⊎ (m ≡ raised)) ⊎ ((a : A) × (m ≡ made a))
Made-cases (made a) = inr (a, refl)
Made-cases stopped = inl (inl refl)
Made-cases raised = inl (inr refl)

module _ (files : FileSystem) where
  open files use {Disk, exists, is_directory, status_fails, create_directory}

  -- The root is made unless it is there.
  unfoldable pub ensure_root : ConfigArg → Disk → Made Disk
  ensure_root arg d =
      if status_fails arg.root d
      then raised
      else if exists arg.root d && is_directory arg.root d
      then made d
      else elim (create_directory arg.root d) [ none ↦ stopped | some d' ↦ made d' ]

  -- The constructor of each class.
  unfoldable pub construct : Kind → ConfigArg → Disk → Made (Factory × Disk)
  unfolding ensure_root
  construct crud arg d = elim (ensure_root arg d) [
    | made d' ↦ made (new_factory crud arg, d')
    | stopped ↦ stopped
    | raised ↦ raised
  ]
  construct kind arg d = made (new_factory kind arg, d)

  -- `create` of each class, with the address that the session sets.
  unfoldable pub create : Factory → Bytes → Disk → Made (Handler × Disk)
  unfolding ensure_root
  create f client_ip d =
      let h : Handler = record {
        client_ip = client_ip;
        prefix = f.arg.location;
        dir = f.arg.root;
      } in
      elim f.kind [
        | text_gen ↦ elim (ensure_root f.arg d) [
          | made d' ↦ made (h, d')
          | stopped ↦ stopped
          | raised ↦ raised
        ]
        | _ ↦ made (h, d)
      ]
