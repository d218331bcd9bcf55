-- ===== src/Config/Usage.antt =====
-- `printUsage` of src/config.cpp.
use gcscfuse.Base.{◌++◌}
use gcscfuse.Base.Bytes.{Bytes, codes}

-- What is written to the standard output.
unfoldable pub print_usage : Bytes → Bytes
print_usage program_name =
    codes "Usage: "
    ++ program_name
    ++ codes " <bucket_name> <mount_point> [options]\n"
    ++ codes "   or: "
    ++ program_name
    ++ codes " --config <config.yaml> [options]\n\n"
    ++ codes "Required arguments:\n"
    ++ codes "  bucket_name              GCS bucket name to mount\n"
    ++ codes "  mount_point              Directory to mount the filesystem\n\n"
    ++ codes "GCSFS options:\n"
    ++ codes "  --config=FILE            Load configuration from YAML file\n"
    ++ codes "  --disable-stat-cache     Disable stat metadata cache (enabled by default)\n"
    ++ codes
        "  --stat-cache-ttl=N       Stat cache timeout in seconds (default: 60, 0=no timeout)\n"
    ++ codes "  --disable-file-cache     Disable file content cache (enabled by default)\n"
    ++ codes "  --enable-dummy-reader    Use dummy reader for testing (returns zeros)\n"
    ++ codes "  --debug                  Enable debug logging\n"
    ++ codes "  --verbose                Enable verbose output\n"
    ++ codes "  --help                   Display this help message\n\n"
    ++ codes "FUSE options:\n"
    ++ codes "  -f                       Run in foreground\n"
    ++ codes "  -d                       Enable FUSE debug output\n"
    ++ codes "  -o option                Mount options (e.g., -o allow_other)\n\n"
    ++ codes "Environment variables:\n"
    ++ codes "  GCSFUSE_BUCKET           Bucket name (overridden by CLI/config)\n"
    ++ codes "  GCSFUSE_MOUNT_POINT      Mount point (overridden by CLI/config)\n"
    ++ codes "  GCSFUSE_STAT_CACHE       Enable stat cache (true/false)\n"
    ++ codes "  GCSFUSE_FILE_CACHE       Enable file cache (true/false)\n"
    ++ codes "  GCSFUSE_DEBUG            Enable debug mode (true/false)\n\n"
    ++ codes "Configuration priority (highest to lowest):\n"
    ++ codes "  1. Command-line arguments\n"
    ++ codes "  2. Environment variables\n"
    ++ codes "  3. YAML config file (--config)\n"
    ++ codes "  4. Default values\n\n"
    ++ codes "Examples:\n"
    ++ codes "  "
    ++ program_name
    ++ codes " my-bucket ~/mnt\n"
    ++ codes "  "
    ++ program_name
    ++ codes " --config config.yaml\n"
    ++ codes "  "
    ++ program_name
    ++ codes " my-bucket ~/mnt --disable-stat-cache -f\n"
    ++ codes "  "
    ++ program_name
    ++ codes " my-bucket ~/mnt --debug -o allow_other\n"
