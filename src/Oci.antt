-- ===== src/Oci.antt =====
-- internal/provider/oci/oci.go: the client of OCI registries. The children hold its texts (Digest, Links),
-- its requests (Requests), the index of referrers (Referrers) and its operations (Client).
pub mod Digest
pub mod Links
pub mod Requests
pub mod Referrers
pub mod Client
pub mod Setup
