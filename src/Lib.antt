-- ===== src/Lib.antt =====
-- Verification of the controller that publishes a tenant cluster's endpoints on its host cluster.
--
-- A tenant ("guest") cluster runs on virtual machines of a host cluster. For each TenantCluster
-- the controller runs passes: it lists the guest's Services, Ingresses, Gateways and HTTPRoutes,
-- maps each to the host object that should stand for it, limits how many of them may take an
-- address, pins the guest objects with a finalizer, creates or updates the host objects, deletes
-- those that are no longer desired, and lets go of the guest objects without host state. What the
-- guest asks for is not trusted: hostnames, object references and classes are checked or replaced.
-- A guest's volumes are claims on the host that the controller plugs into the guest's machines by
-- KubeVirt, where a plugin inside the guest finds the disk by its serial and mounts it; a host
-- claim may only be deleted when its volume is out of every machine.
--
-- The files, and the code that each models:
--   Hostname             internal/hostname/hostname.go: Allowed, Refusal, canonical
--   Tenant, Meta         api/v1alpha1/tenantcluster_types.go, and the object metadata in use
--   Ownership            internal/syncer/ownership.go, mergeLabels of pass.go and
--                        mapHostObjectToTenant of tenantcluster_controller.go
--   Service              internal/syncer/service.go: wantsLoadBalancer; Service/Families: the
--                        address families; Service/Mapping: mapService
--   Ingress              internal/syncer/ingress.go: mapIngress
--   Gateway              internal/syncer/gateway.go: mapGateway
--   Route                internal/syncer/gateway.go: Route/Filters is mapFilters, Route/Rules
--                        is mapHTTPRoute
--   Pass/Refs            internal/syncer/pass.go: the state of a pass
--   Pass/Gather          gatherServices, backendResolver, addBackends; Pass/Gather/Http: the other
--                        gatherings and the first part of run
--   Pass/Limit           applyAddressLimit, hostObjectExists, withdrawClaim
--   Pass/Apply           applyAll, mayTouch, the four applies, reconcilePorts, applyProblem
--   Pass/Prune           pruneAll, pruneProblem, deleteOwned
--   Pass/Finalizers      internal/syncer/writeback.go: ensureGuestFinalizers and
--                        releaseGuestFinalizers
--   Pass/WriteBack       internal/syncer/writeback.go: what writeBackServices tells a Service
--   Pass/GuestClass      reconcileGuestGatewayClass, and the mirrored class of gateway.go
--   Pass/Listing         the answers of API servers to List calls
--   KubeVirt             internal/kubevirt/hotplug.go: VMs; KubeVirt/Values: the values inside
--                        unstructured objects; KubeVirt/Plug: AddVolume, RemoveVolume, put
--   Storage              internal/syncer/storage.go, and SerialFor of internal/csinode/node.go;
--                        Storage/Plugin: guestCSIDriver and guestNodePlugin
--   Volumes              internal/syncer/storage_pass.go: the state of the storage slice
--   Volumes/Gather, Volumes/Provision, Volumes/Attach, Volumes/Classes, Volumes/Install,
--   Volumes/Status       gatherStorage, provisionPVC, reconcileAttachment,
--                        applyGuestStorageClasses, applyGuestPlugin with applyStorage, and
--                        writeBackStorage
--   Volumes/Teardown     pruneStorage, teardownGuestPVC, volumeUnplugged
--   Volumes/Orphans      removeOrphanVMVolumes
--   Volumes/Deletion     storageTeardown, cleanupGuestStorage
--   CsiNode              internal/csinode/node.go: the requests of the node service
--   Reconciler           internal/syncer/tenantcluster_controller.go: reconcileDelete,
--                        guestClientFor, hostAddressFamilies
-- Prelude and Go hold shared notation, association lists and the functions of Go's strings package
-- that the code calls; Gathered is the result that the mapping loops build up. The children of
-- these modules hold the proofs, and Samples the values of the tests.
--
-- A text is the list of its characters' codes. A Go map is an association list with a test of
-- equality of keys; a map to bool is the list of its keys. An operation that changes the pass
-- takes it and returns it. Calls of an API server are either values that the operation takes
-- (listings, answers to Get, Update and Delete) or entries of a log that it returns (the deletions
-- and updates issued, in order). In Volumes an answer may depend on all calls issued before it.
-- Error texts that code builds are data types that hold the values each text names. Loops are
-- structural recursion over lists. Only the wait for a device runs on fuel: 32 attempts, of which
-- at least a second each passes, are enough for its 30 seconds. The numbers are counts, ports and
-- times, which the code only compares and increases.
--
-- Parameters, as code outside the repository: SHA-256, the tables of Unicode, the recognition of
-- IPv4 addresses, quantities of zero and address ranges, controllerutil's finalizer functions, the
-- mounter, the clock, and the answers of the two API servers and of KubeVirt. The order in which
-- Go goes over a map is the order of the list, so that what holds of every list holds of it.
--
-- Not modelled: the creation of the host namespace (internal/syncer/pass.go), the rest of the
-- write-back (writeback.go), the reconciliation of a TenantCluster that is not deleted and the
-- release of its guest's finalizers (tenantcluster_controller.go), the gRPC server and identity
-- service of internal/csinode, the construction of clients, the command line (cmd/main.go), and
-- generated code and charts.
pub mod Prelude
pub mod Go
pub mod Gathered
pub mod Meta
pub mod Tenant
pub mod Ownership
pub mod Service
pub mod Storage
pub mod Ingress
pub mod Gateway
pub mod Route
pub mod KubeVirt
pub mod Pass
pub mod Volumes
pub mod CsiNode
pub mod Reconciler
pub mod Samples
pub mod Hostname
