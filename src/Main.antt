-- ===== src/Main.antt =====
-- src/main.cpp: `main`.
use gcscfuse.Base.{◌∷◌, refl, inr, inl, ◌⊎◌, List, ◌≡◌, ℕ, length, suc, ◌∙◌, ap}
use gcscfuse.Base.Bytes.{codes, Bytes}
use gcscfuse.Base.Int.{pos, ℤ}
use gcscfuse.Config.{GcsfsConfig}
use gcscfuse.Config.Args.{to_fuse_args}
use gcscfuse.Config.Layers.{Error, Loaded, ok, exit, raise}
use gcscfuse.Config.Load.{load, Inputs}
use gcscfuse.Config.Load.Exits.{load-exit}
use gcscfuse.Config.Load.Laws.{load-IsUsable, IsUsable}
use gcscfuse.Config.Usage.{print_usage}
use gcscfuse.Fs.Invariant.{IsConsistent}
use gcscfuse.Fs.State.{construct, Gcsfs}
use gcscfuse.Fs.Steps.{construct-IsConsistent}
use gcscfuse.Gcs.Laws.{StorageLaws}
use gcscfuse.Gcs.Sdk.{StorageClient}

Loaded-cases {ℓ} :
    {A : Type ℓ} (l : Loaded A)
    → ((output : Bytes) × (l ≡ exit output))
      ⊎ ((e : Error) × (l ≡ raise e))
      ⊎ ((a : A) × (l ≡ ok a))
Loaded-cases (exit output) = inl (output, refl)
Loaded-cases (raise e) = inr (inl (e, refl))
Loaded-cases (ok a) = inr (inr (a, refl))

-- The status of the process. `fuse_main` is the parameter `run`: the program hands it the number of
-- arguments, the arguments, and the file system.
module _ (client : StorageClient) (run : ℕ → List Bytes → Gcsfs client → ℤ) where
  unfoldable pub main : Inputs → client.Cloud → ℤ
  main inputs cloud = elim (load inputs) [
    | exit output ↦ pos 0
    | raise e ↦ pos 1
    | ok config ↦
        let (fuse_argc, fuse_argv) = to_fuse_args config in
        run fuse_argc fuse_argv (construct client config.bucket_name config cloud)
  ]

-- Either the configuration ends the program with 0 after the usage text, or its error gives 1, or
-- the status is that of FUSE, run with the program's name, the mount point and the further
-- arguments on a consistent state; the bucket and the mount point are then not empty, and the
-- timeout is not negative.
pub main-runs :
    {client : StorageClient} (laws : StorageLaws client) (run : ℕ → List Bytes → Gcsfs client → ℤ)
    (inputs : Inputs) (cloud : client.Cloud)
    → ((load inputs ≡ exit (print_usage inputs.program_name))
        × (main client run inputs cloud ≡ pos 0))
      ⊎ ((e : Error) × (load inputs ≡ raise e) × (main client run inputs cloud ≡ pos 1))
      ⊎ ((config : GcsfsConfig) × (load inputs ≡ ok config)
          × IsUsable config
          × IsConsistent client (construct client config.bucket_name config cloud)
          × (main client run inputs cloud
              ≡ run
                  (suc (suc (length config.fuse_args)))
                  (codes "gcs_fs" ∷ config.mount_point ∷ config.fuse_args)
                  (construct client config.bucket_name config cloud)))
unfolding main to_fuse_args
main-runs {client} laws run inputs cloud = elim (Loaded-cases (load inputs)) [
  | inl (output, e) ↦ inl (e ∙ ap exit (load-exit inputs output e), rw (e, main) refl)
  | inr (inl (error, e)) ↦ inr (inl (error, e, rw (e, main) refl))
  | inr (inr (config, e)) ↦ inr (
      inr (
        config,
        e,
        load-IsUsable inputs config e,
        construct-IsConsistent laws config.bucket_name config cloud,
        rw (e, main) refl,
      ))
]
