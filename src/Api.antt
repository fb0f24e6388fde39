-- ===== src/Api.antt =====
-- The custom resources of pkg/api/bfiola.dev/v1, and the fields that the program reads of the
-- Kubernetes and MinIO objects (types of packages that are not in this repository).
mod Common
mod Group
mod User
mod Policy
mod AccessKey
mod Bucket
mod Foreign
unfoldable pub use Common.*
pub use Group.*
pub use User.*
pub use Policy.*
pub use Bucket.*
pub use AccessKey.*
pub use Foreign.*
