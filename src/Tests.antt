-- ===== src/Tests.antt =====
-- A site, a cluster and a database server to run the program on, and the theorems at these.
mod Sites
mod Clusters
mod Resources
mod Mysql
mod Server
mod Controller
mod Isolation
mod DeepCopy
mod Stores
mod Apiserver
mod Recovery
mod Dev
mod Development
mod App
mod System
mod Metrics
mod Status
